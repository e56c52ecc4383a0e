-- ===== src/Reset.antt =====
-- cmd/reset/main.go: the generator of Reset methods. What go/parser gives is the input here,
-- format.Source and the tables of package unicode are parameters.
pub mod Text
pub mod Generate
pub mod Walk
pub mod Values
pub mod Typing
pub mod Method
pub mod Empties
pub mod Generated
pub mod Main
mod Tests
use Prim.Native.String
use study_project_metrics_an.Base.{
  String, Bool, true, false, not, ◌&&◌, ◌||◌, Option, none, some, List, [], ◌∷◌, ◌++◌, map, ◌⊎◌,
  inl, inr, ◌==◌, if◌then◌else◌,
}
use study_project_metrics_an.Base.Assoc.{Assoc, lookup, insert}
use study_project_metrics_an.Config.{behind}
use study_project_metrics_an.Reset.Text.{concat, trim_space, Unicode, first_letter}

-- A type expression; `array` says whether a length stands in the brackets, and `other_type` is any form
-- that the generator does not look at, such as a struct type or an instance of a generic type.
pub data Expr : Type 0 where
  ident : String → Expr
  selector : String → String → Expr
  array : Bool → Expr → Expr
  map_type : Expr → Expr → Expr
  star : Expr → Expr
  interface_type chan_type func_type other_type : Expr

abbrev pub number_names : List String
number_names =
    "int" ∷ "int8" ∷ "int16" ∷ "int32" ∷ "int64" ∷ "uint" ∷ "uint8" ∷ "uint16" ∷ "uint32" ∷ "uint64"
    ∷ "uintptr" ∷ "byte" ∷ "rune" ∷ "float32" ∷ "float64" ∷ "complex64" ∷ "complex128" ∷ []

abbrev pub zeros : List String → Assoc String
zeros [] = ("bool", "false") ∷ ("string", "\"\"") ∷ []
zeros (name ∷ names) = (name, "0") ∷ zeros names

-- The map primitiveZero.
unfoldable pub primitive_zero : String → Option String
primitive_zero name = lookup name (zeros number_names)

abbrev pub call_reset : String → String
call_reset ref =
    concat ("if _r, _ok := any(&" ∷ ref ∷ ").(interface{ Reset() }); _ok { _r.Reset() }" ∷ [])

abbrev pub zeroed : String → Option String → Option String
zeroed ref none = none
zeroed ref (some zero) =
    some (concat ("if " ∷ ref ∷ " != nil { *" ∷ ref ∷ " = " ∷ zero ∷ " }" ∷ []))

abbrev pub primitive_of : Expr → Option String
primitive_of (ident name) = primitive_zero name
primitive_of _ = none

abbrev pub or_else : Option String → String → String
or_else none other = other
or_else (some line) other = line

unfoldable pub ptr_reset_line : String → Expr → String
unfolding primitive_zero
ptr_reset_line ref inner = or_else (zeroed ref (primitive_of inner)) (
    concat (
      "if " ∷ ref ∷ " != nil { if _r, _ok := any(" ∷ ref
      ∷ ").(interface{ Reset() }); _ok { _r.Reset() } }" ∷ []))

abbrev pub assigned : String → Option String → Option String
assigned ref none = none
assigned ref (some zero) = some (concat (ref ∷ " = " ∷ zero ∷ []))

-- The statement for a field, or "" where it is left as it is; `ref` is the receiver, a dot and the
-- field.
unfoldable pub reset_ref : String → Expr → String
unfolding ptr_reset_line
reset_ref ref (ident name) = or_else (assigned ref (primitive_zero name)) (call_reset ref)
reset_ref ref (selector pkg name) = call_reset ref
reset_ref ref (array false elem) = concat (ref ∷ " = " ∷ ref ∷ "[:0]" ∷ [])
reset_ref ref (array true elem) = ""
reset_ref ref (map_type key value) = concat ("clear(" ∷ ref ∷ ")" ∷ [])
reset_ref ref (star inner) = ptr_reset_line ref inner
reset_ref ref interface_type = String.◌++◌ ref " = nil"
reset_ref ref chan_type = String.◌++◌ ref " = nil"
reset_ref ref func_type = String.◌++◌ ref " = nil"
reset_ref ref other_type = ""

unfoldable pub reset_line : String → String → Expr → String
unfolding reset_ref
reset_line recv field typ = reset_ref (concat (recv ∷ "." ∷ field ∷ [])) typ

-- The name of a field that has only a type; "" where there is none.
unfoldable pub embedded_type_name : Expr → String
embedded_type_name (ident name) = name
embedded_type_name (star inner) = embedded_type_name inner
embedded_type_name (selector pkg name) = name
embedded_type_name _ = ""

-- One entry of a struct's list of fields: several names can share a type.
pub record Field : Type 0 where
  pub names : List String
  pub typ : Expr

abbrev pub embedded : String → List String
embedded name = if name == "" then [] else name ∷ []

abbrev pub names_or : List String → String → List String
names_or [] name = embedded name
names_or (n ∷ names) name = n ∷ names

unfoldable pub field_names : Field → List String
unfolding embedded_type_name
field_names f = names_or f.names (embedded_type_name f.typ)

-- A comment group, a comment per element, or none where there is no comment.
abbrev pub Doc : Type 0
Doc = Option (List String)

abbrev pub without_slashes : String → String
without_slashes text = or_else (behind "//" text) text

unfoldable pub has_annotation : List String → Bool
has_annotation [] = false
has_annotation (c ∷ comments) =
    trim_space (without_slashes c) == "generate:reset" || has_annotation comments

unfoldable pub has_reset_annotation : Doc → Bool
unfolding has_annotation
has_reset_annotation none = false
has_reset_annotation (some comments) = has_annotation comments

-- The first letter of the type's name in lower case.
unfoldable pub recv_name : Unicode → String → String
recv_name unicode type_name = or_else (first_letter unicode type_name) "s"
