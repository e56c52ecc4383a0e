-- ===== src/Reset/Values.antt =====
-- What the statements that the generator writes do to a value, against types of the language.
use Prim.Native.String
use study_project_metrics_an.Base.{
  ℕ, String, ◌≡◌, refl, Bool, true, false, Option, none, some, List, [], ◌∷◌, ◌==◌, if◌then◌else◌,
  arith,
}
use study_project_metrics_an.Base.Assoc.{Assoc, lookup}
use study_project_metrics_an.Reset.Text.{concat}
use study_project_metrics_an.Reset.{
  Expr, ident, selector, array, map_type, star, interface_type, chan_type, func_type, other_type,
  number_names, zeros, primitive_zero, primitive_of, ptr_reset_line, reset_ref, call_reset, or_else,
  zeroed, assigned,
}

-- The statements, without the operand that they share.
pub data Stmt : Type 0 where
  assign : String → Stmt
  assign_nil truncate clear call : Stmt
  assign_pointee : String → Stmt
  call_pointer : Stmt

abbrev pub assign_or : (String → Stmt) → Option String → Stmt → Stmt
assign_or make none otherwise = otherwise
assign_or make (some literal) otherwise = make literal

-- The statement for a field of a type, where there is one.
unfoldable pub stmt_of : Expr → Option Stmt
unfolding primitive_zero
stmt_of (ident name) = some (assign_or assign (primitive_zero name) call)
stmt_of (selector pkg name) = some call
stmt_of (array false elem) = some truncate
stmt_of (array true elem) = none
stmt_of (map_type key value) = some clear
stmt_of (star inner) = some (assign_or assign_pointee (primitive_of inner) call_pointer)
stmt_of interface_type = some assign_nil
stmt_of chan_type = some assign_nil
stmt_of func_type = some assign_nil
stmt_of other_type = none

abbrev pub print : String → Stmt → String
print ref (assign literal) = concat (ref ∷ " = " ∷ literal ∷ [])
print ref assign_nil = String.◌++◌ ref " = nil"
print ref truncate = concat (ref ∷ " = " ∷ ref ∷ "[:0]" ∷ [])
print ref clear = concat ("clear(" ∷ ref ∷ ")" ∷ [])
print ref call =
    concat ("if _r, _ok := any(&" ∷ ref ∷ ").(interface{ Reset() }); _ok { _r.Reset() }" ∷ [])
print ref (assign_pointee literal) =
    concat ("if " ∷ ref ∷ " != nil { *" ∷ ref ∷ " = " ∷ literal ∷ " }" ∷ [])
print ref call_pointer = concat (
    "if " ∷ ref ∷ " != nil { if _r, _ok := any(" ∷ ref
    ∷ ").(interface{ Reset() }); _ok { _r.Reset() } }" ∷ [])

abbrev pub print_all : String → Option Stmt → String
print_all ref none = ""
print_all ref (some st) = print ref st

print-assign :
    (ref : String) (o : Option String)
    → or_else (assigned ref o) (call_reset ref) ≡ print ref (assign_or assign o call)
print-assign ref none = refl
print-assign ref (some literal) = refl

print-ptr :
    (ref : String) (o : Option String)
    → or_else (zeroed ref o) (print ref call_pointer)
      ≡ print ref (assign_or assign_pointee o call_pointer)
print-ptr ref none = refl
print-ptr ref (some literal) = refl

pub reset_ref-print : (ref : String) (t : Expr) → reset_ref ref t ≡ print_all ref (stmt_of t)
unfolding reset_ref stmt_of ptr_reset_line
reset_ref-print ref (ident name) = print-assign ref (primitive_zero name)
reset_ref-print ref (selector pkg name) = refl
reset_ref-print ref (array false elem) = refl
reset_ref-print ref (array true elem) = refl
reset_ref-print ref (map_type key value) = refl
reset_ref-print ref (star inner) = print-ptr ref (primitive_of inner)
reset_ref-print ref interface_type = refl
reset_ref-print ref chan_type = refl
reset_ref-print ref func_type = refl
reset_ref-print ref other_type = refl

pub data Value : Type 0 where
  num : ℕ → Value
  truth : Bool → Value
  text : String → Value
  slice : ℕ → ℕ → Value
  fixed : ℕ → Value
  table : ℕ → Value
  pointer : Value → Value
  null : Value
  handle : ℕ → Value
  object : String → ℕ → Value

pub data Kind : Type 0 where
  numeric boolean textual : Kind

abbrev kinds : List String → Assoc Kind
kinds [] = ("bool", boolean) ∷ ("string", textual) ∷ []
kinds (name ∷ names) = (name, numeric) ∷ kinds names

-- The predeclared types of the language, by their names.
unfoldable pub kind : String → Option Kind
kind name = lookup name (kinds number_names)

abbrev pub zero_value : Kind → Value
zero_value numeric = num 0
zero_value boolean = truth false
zero_value textual = text ""

abbrev pub literal_value : String → Option Value
literal_value t =
    if t == "0"
    then some (num 0)
    else if t == "false"
    then some (truth false)
    else if t == "\"\""
    then some (text "")
    else none

abbrev pub zero_text : Option Kind → Option String
zero_text none = none
zero_text (some numeric) = some "0"
zero_text (some boolean) = some "false"
zero_text (some textual) = some "\"\""

pub lookup-zeros :
    (names : List String) (name : String)
    → lookup name (zeros names) ≡ zero_text (lookup name (kinds names))
unfolding lookup
lookup-zeros [] name = ground arith
lookup-zeros (n ∷ names) name = ground (arith, lookup-zeros names name)
