-- ===== src/Reset/Typing.antt =====
-- The statements that the generator writes keep the types of the fields, and what they leave in them.
use study_project_metrics_an.Base.{
  ℕ, String, ◌≡◌, refl, ◌∙◌, ap, Bool, true, false, Option, none, some, [], ◌∷◌,
}
use study_project_metrics_an.Reset.Text.{concat}
use study_project_metrics_an.Reset.{
  Expr, ident, selector, array, map_type, star, interface_type, chan_type, func_type, other_type,
  number_names, primitive_zero, primitive_of,
}
use study_project_metrics_an.Reset.Values.{
  Stmt, assign, assign_nil, truncate, clear, call, assign_pointee, call_pointer, assign_or, stmt_of,
  Value, num, truth, text, slice, fixed, table, pointer, null, handle, object, Kind, numeric,
  boolean, textual, kind, literal_value, zero_text, lookup-zeros,
}

-- The values of a type. A slice has its length and its capacity, an array and a map their number
-- of elements, and what has a named type the name and a state; a value of a form that the generator
-- passes over is a fixed one.
pub data HasType : Expr → Value → Type 0 where
  number : (n : String) (k : ℕ) → kind n ≡ some numeric → HasType (ident n) (num k)
  truth_value : (n : String) (b : Bool) → kind n ≡ some boolean → HasType (ident n) (truth b)
  text_value : (n t : String) → kind n ≡ some textual → HasType (ident n) (text t)
  named : (n : String) (k : ℕ) → kind n ≡ none → HasType (ident n) (object n k)
  qualified : (p n : String) (k : ℕ) → HasType (selector p n) (object (concat (p ∷ "." ∷ n ∷ [])) k)
  sliced : (t : Expr) (len cap : ℕ) → HasType (array false t) (slice len cap)
  no_slice : (t : Expr) → HasType (array false t) null
  arrayed : (t : Expr) (n : ℕ) → HasType (array true t) (fixed n)
  mapped : (k t : Expr) (n : ℕ) → HasType (map_type k t) (table n)
  no_map : (k t : Expr) → HasType (map_type k t) null
  pointed : {t : Expr} {v : Value} → HasType t v → HasType (star t) (pointer v)
  no_pointer : (t : Expr) → HasType (star t) null
  interfaced : (n : ℕ) → HasType interface_type (handle n)
  no_interface : HasType interface_type null
  channelled : (n : ℕ) → HasType chan_type (handle n)
  no_channel : HasType chan_type null
  function : (n : ℕ) → HasType func_type (handle n)
  no_function : HasType func_type null
  unknown : (n : ℕ) → HasType other_type (fixed n)

-- `reset` is what the method Reset of a named type does to the state, where the type has one.
module _ (reset : String → Option (ℕ → ℕ)) where
  abbrev pub after : Option (ℕ → ℕ) → ℕ → ℕ
  after none k = k
  after (some f) k = f k

  abbrev pub called : Value → Value
  called (object n k) = object n (after (reset n) k)
  called v = v

  abbrev literal_or : Option Value → Value → Value
  literal_or none v = v
  literal_or (some z) v = z

  -- What a statement makes of the value of its field.
  unfoldable pub run : Stmt → Value → Value
  run (assign z) v = literal_or (literal_value z) v
  run assign_nil v = null
  run truncate (slice len cap) = slice 0 cap
  run truncate v = v
  run clear (table n) = table 0
  run clear v = v
  run call v = called v
  run (assign_pointee z) (pointer v) = pointer (literal_or (literal_value z) v)
  run (assign_pointee z) v = v
  run call_pointer (pointer v) = pointer (called v)
  run call_pointer v = v

  abbrev pub run_all : Option Stmt → Value → Value
  run_all none v = v
  run_all (some st) v = run st v

  -- What the method leaves in a field, with no look at the generator: numbers are 0, a slice keeps its
  -- memory, a map is empty, what has a method Reset has been through it, and arrays, struct literals
  -- and what has a named type without that method are as they were.
  abbrev pub zeroed_value : Value → Value
  zeroed_value (num k) = num 0
  zeroed_value (truth b) = truth false
  zeroed_value (text t) = text ""
  zeroed_value (slice len cap) = slice 0 cap
  zeroed_value (fixed n) = fixed n
  zeroed_value (table n) = table 0
  zeroed_value (pointer v) = pointer v
  zeroed_value null = null
  zeroed_value (handle n) = null
  zeroed_value (object n k) = object n (after (reset n) k)

  -- Of what a pointer points to, only a predeclared type and a named one are reset.
  abbrev pub pointee : Value → Value
  pointee (num k) = num 0
  pointee (truth b) = truth false
  pointee (text t) = text ""
  pointee (object n k) = object n (after (reset n) k)
  pointee v = v

  abbrev pub left_value : Value → Value
  left_value (pointer v) = pointer (pointee v)
  left_value v = zeroed_value v

  primitive_zero-kind : (n : String) → primitive_zero n ≡ zero_text (kind n)
  unfolding primitive_zero kind
  primitive_zero-kind n = lookup-zeros number_names n

  primitive : (n : String) {o : Option Kind} → kind n ≡ o → primitive_zero n ≡ zero_text o
  primitive n e = primitive_zero-kind n ∙ ap zero_text e

  -- What a pointer points to.
  run-pointee :
      {t : Expr} {v : Value}
      → HasType t v
      → run (assign_or assign_pointee (primitive_of t) call_pointer) (pointer v)
        ≡ pointer (pointee v)
  unfolding run
  run-pointee (number n k e) = rw (primitive n e) refl
  run-pointee (truth_value n b e) = rw (primitive n e) refl
  run-pointee (text_value n s e) = rw (primitive n e) refl
  run-pointee (named n k e) = rw (primitive n e) refl
  run-pointee (qualified p n k) = refl
  run-pointee (sliced t len cap) = refl
  run-pointee (no_slice t) = refl
  run-pointee (arrayed t n) = refl
  run-pointee (mapped k t n) = refl
  run-pointee (no_map k t) = refl
  run-pointee (pointed h) = refl
  run-pointee (no_pointer t) = refl
  run-pointee (interfaced n) = refl
  run-pointee no_interface = refl
  run-pointee (channelled n) = refl
  run-pointee no_channel = refl
  run-pointee (function n) = refl
  run-pointee no_function = refl
  run-pointee (unknown n) = refl

  run_no_pointer : (o : Option String) → run (assign_or assign_pointee o call_pointer) null ≡ null
  unfolding run
  run_no_pointer none = refl
  run_no_pointer (some z) = refl

  -- Run on a value of the type of its field, the statement that the generator chooses makes this
  -- value, and where it chooses none the value stays as it is.
  pub run_all-left_value :
      {t : Expr} {v : Value} → HasType t v → run_all (stmt_of t) v ≡ left_value v
  unfolding run stmt_of
  run_all-left_value (number n k e) = rw (primitive n e) refl
  run_all-left_value (truth_value n b e) = rw (primitive n e) refl
  run_all-left_value (text_value n s e) = rw (primitive n e) refl
  run_all-left_value (named n k e) = rw (primitive n e) refl
  run_all-left_value (qualified p n k) = refl
  run_all-left_value (sliced t len cap) = refl
  run_all-left_value (no_slice t) = refl
  run_all-left_value (arrayed t n) = refl
  run_all-left_value (mapped k t n) = refl
  run_all-left_value (no_map k t) = refl
  run_all-left_value (pointed h) = run-pointee h
  run_all-left_value (no_pointer t) = run_no_pointer (primitive_of t)
  run_all-left_value (interfaced n) = refl
  run_all-left_value no_interface = refl
  run_all-left_value (channelled n) = refl
  run_all-left_value no_channel = refl
  run_all-left_value (function n) = refl
  run_all-left_value no_function = refl
  run_all-left_value (unknown n) = refl
