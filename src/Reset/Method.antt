-- ===== src/Reset/Method.antt =====
-- The whole Reset method of a struct: its lines as statements, and what they do to all fields.
use Prim.Native.String
use text.Mathlib.TextLemmas.{append-eq-nil_iff}
use text.Mathlib.TextEquality.{eq_iff}
use text.Mathlib.TextPositions.{eq_refl}
use study_project_metrics_an.Base.{
  ℕ, String, ◌≡◌, refl, ◌∙◌, ap, false, Option, none, some, List, [], ◌∷◌, ◌==◌, arith,
  eq-false_of_ne, if◌then◌else◌, Bool-cases, inl, inr,
}
use study_project_metrics_an.Base.Assoc.{Assoc, lookup, IsDistinct}
use study_project_metrics_an.Reset.Text.{concat}
use study_project_metrics_an.Reset.{Expr, Field, field_names, reset_line}
use study_project_metrics_an.Reset.Generate.{name_lines, field_lines, with_line}
use study_project_metrics_an.Reset.Values.{
  Stmt, assign, assign_nil, truncate, clear, call, assign_pointee, call_pointer, print, print_all,
  stmt_of, reset_ref-print, Value,
}
use study_project_metrics_an.Reset.Typing.{HasType, run_all, left_value, run_all-left_value}

-- The fields of a struct, one name after the other.
abbrev pub named : Expr → List String → Assoc Expr → Assoc Expr
named t [] rest = rest
named t (name ∷ names) rest = (name, t) ∷ named t names rest

unfoldable pub declared : List Field → Assoc Expr
declared [] = []
declared (f ∷ fields) = named f.typ (field_names f) (declared fields)

-- The lines of the statements of those fields that have one.
abbrev pub with_stmt : String → Option Stmt → List String → List String
with_stmt ref none lines = lines
with_stmt ref (some st) lines = print ref st ∷ lines

abbrev pub printed : String → Assoc Expr → List String
printed recv [] = []
printed recv ((name, t) ∷ fields) =
    with_stmt (concat (recv ∷ "." ∷ name ∷ [])) (stmt_of t) (printed recv fields)

left_not_empty : (s t : String) → (s == "") ≡ false → (String.◌++◌ s t == "") ≡ false
left_not_empty s t h =
    eq-false_of_ne (String.◌++◌ s t) "" (λ e. ground (arith, eq_iff s "", append-eq-nil_iff.0 e))

right_not_empty : (s t : String) → (t == "") ≡ false → (String.◌++◌ s t == "") ≡ false
right_not_empty s t h =
    eq-false_of_ne (String.◌++◌ s t) "" (λ e. ground (arith, eq_iff t "", append-eq-nil_iff.0 e))

print-not_empty : (ref : String) (st : Stmt) → (print ref st == "") ≡ false
print-not_empty ref (assign z) = right_not_empty ref _ (left_not_empty " = " z refl)
print-not_empty ref assign_nil = right_not_empty ref " = nil" refl
print-not_empty ref truncate = right_not_empty ref _ (left_not_empty " = " _ refl)
print-not_empty ref clear = left_not_empty "clear(" _ refl
print-not_empty ref call = left_not_empty "if _r, _ok := any(&" _ refl
print-not_empty ref (assign_pointee z) = left_not_empty "if " _ refl
print-not_empty ref call_pointer = left_not_empty "if " _ refl

with_line-print_all :
    (ref : String) (o : Option Stmt) (lines : List String)
    → with_line (print_all ref o) lines ≡ with_stmt ref o lines
with_line-print_all ref none lines = refl
with_line-print_all ref (some st) lines = rw (print-not_empty ref st) refl

printed-named :
    (recv : String) (t : Expr) (names : List String) (rest : Assoc Expr)
    → name_lines recv t names (printed recv rest) ≡ printed recv (named t names rest)
unfolding name_lines reset_line
printed-named recv t [] rest = refl
printed-named recv t (name ∷ names) rest =
    rw (printed-named recv t names rest, reset_ref-print (concat (recv ∷ "." ∷ name ∷ [])) t)
      (with_line-print_all (concat (recv ∷ "." ∷ name ∷ [])) (stmt_of t)
        (printed recv (named t names rest)))

-- The lines that the template gets for a struct are, in the order of its fields, the statements
-- for those fields that have one; a field without a name and without a type name gives none.
pub field_lines-printed :
    (recv : String) (fields : List Field) → field_lines recv fields ≡ printed recv (declared fields)
unfolding field_lines declared
field_lines-printed recv [] = refl
field_lines-printed recv (f ∷ fields) =
    rw (field_lines-printed recv fields)
      (printed-named recv f.typ (field_names f) (declared fields))

-- A struct as the values of its fields by their names.
abbrev pub StructValue : Type 0
StructValue = String → Value

abbrev pub update : String → Value → StructValue → StructValue
update name v s k = if name == k then v else s k

module _ (reset : String → Option (ℕ → ℕ)) where
  -- The statements of the method one after the other.
  unfoldable pub run_method : Assoc Expr → StructValue → StructValue
  run_method [] s = s
  run_method ((name, t) ∷ fields) s =
      run_method fields (update name (run_all reset (stmt_of t) (s name)) s)

  run_method-other :
      (fields : Assoc Expr) (s : StructValue) (k : String)
      → lookup k fields ≡ none
      → run_method fields s k ≡ s k
  unfolding run_method lookup
  run_method-other [] s k h = refl
  run_method-other ((name, t) ∷ fields) s k h =
      let s' = update name (run_all reset (stmt_of t) (s name)) s in
      elim (Bool-cases (name == k)) [
        | inl e ↦ absurd (ground arith)
        | inr ne ↦ run_method-other fields s' k (rw (ne, lookup) at h) ∙ rw ne refl
      ]

  run_method-first :
      (fields : Assoc Expr) (s : StructValue) (k : String) (t : Expr)
      → lookup k fields ≡ none
      → HasType t (s k)
      → run_method ((k, t) ∷ fields) s k ≡ left_value reset (s k)
  unfolding run_method
  run_method-first fields s k t new ty =
      run_method-other fields (update k (run_all reset (stmt_of t) (s k)) s) k new
      ∙ rw (eq_refl k) (run_all-left_value reset ty)

  -- Where the names of the fields differ and the value of a field has its type, the method leaves in
  -- it what the value calls for, whatever the other fields are.
  pub run_method-left_value :
      (fields : Assoc Expr) (s : StructValue) (k : String) (t : Expr)
      → IsDistinct fields
      → lookup k fields ≡ some t
      → HasType t (s k)
      → run_method fields s k ≡ left_value reset (s k)
  unfolding run_method lookup
  run_method-left_value [] s k t d h ty = absurd cc
  run_method-left_value ((name, u) ∷ fields) s k t (new, d) h ty =
      let s' = update name (run_all reset (stmt_of u) (s name)) s in
      elim (Bool-cases (name == k)) [
        | inl e ↦
            let same : name ≡ k = (eq_iff name k).0 e in
            let typ : u ≡ t = ground arith in
            rw (same, typ) (run_method-first fields s k t (rw same at new) ty)
        | inr ne ↦
            let kept : s' k ≡ s k = rw ne refl in
            run_method-left_value fields s' k t d (rw (ne, lookup) at h) (rw kept ty)
            ∙ ap (left_value reset) kept
      ]
