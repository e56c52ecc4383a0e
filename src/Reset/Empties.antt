-- ===== src/Reset/Empties.antt =====
-- Which fields of a struct its method Reset empties, and which it passes over.
use study_project_metrics_an.Base.{
  ℕ, String, ◌≡◌, refl, ◌∙◌, true, false, Option, none, some, [], ◌∷◌,
}
use study_project_metrics_an.Base.Assoc.{Assoc, lookup, IsDistinct}
use study_project_metrics_an.Reset.Text.{concat}
use study_project_metrics_an.Reset.{
  Expr, ident, selector, array, map_type, star, interface_type, chan_type, func_type, other_type,
}
use study_project_metrics_an.Reset.Values.{
  Value, num, truth, text, slice, table, pointer, null, Kind, kind,
}
use study_project_metrics_an.Reset.Typing.{
  HasType, number, truth_value, text_value, named, qualified, sliced, no_slice, arrayed, mapped,
  no_map, pointed, no_pointer, interfaced, no_interface, channelled, no_channel, function,
  no_function, unknown, left_value,
}
use study_project_metrics_an.Reset.Method.{StructValue, run_method, run_method-left_value}

-- The types whose fields the method empties: the predeclared ones and pointers to them, slices, maps
-- and the others that can be nil.
abbrev pub IsEmptied : Expr → Type 0
IsEmptied (ident n) = (x : Kind) × (kind n ≡ some x)
IsEmptied (star (ident n)) = (x : Kind) × (kind n ≡ some x)
IsEmptied (star _) = ⊥
IsEmptied (selector p n) = ⊥
IsEmptied (array fixed_size t) = fixed_size ≡ false
IsEmptied (map_type k t) = Unit
IsEmptied interface_type = Unit
IsEmptied chan_type = Unit
IsEmptied func_type = Unit
IsEmptied other_type = ⊥

-- Nothing is in the value; a pointer is nil or points to such a value.
abbrev pub IsEmpty : Value → Type 0
IsEmpty (num k) = k ≡ 0
IsEmpty (truth b) = b ≡ false
IsEmpty (text t) = t ≡ ""
IsEmpty (slice len room) = len ≡ 0
IsEmpty (table n) = n ≡ 0
IsEmpty (pointer v) = IsEmpty v
IsEmpty null = Unit
IsEmpty _ = ⊥

module _ (reset : String → Option (ℕ → ℕ)) where
  -- The types whose fields it leaves as they are: arrays, struct literals, and named types with no
  -- method Reset.
  abbrev pub IsPassedOver : Expr → Type 0
  IsPassedOver (ident n) = (kind n ≡ none) × (reset n ≡ none)
  IsPassedOver (selector p n) = reset (concat (p ∷ "." ∷ n ∷ [])) ≡ none
  IsPassedOver (array fixed_size t) = fixed_size ≡ true
  IsPassedOver other_type = Unit
  IsPassedOver _ = ⊥

  left_value-same : {t : Expr} {v : Value} → HasType t v → IsPassedOver t → left_value reset v ≡ v
  left_value-same (number n k e) (e', plain) = absurd cc
  left_value-same (truth_value n b e) (e', plain) = absurd cc
  left_value-same (text_value n s e) (e', plain) = absurd cc
  left_value-same (named n k e) (e', plain) = rw plain refl
  left_value-same (qualified p n k) plain = rw plain refl
  left_value-same (sliced t len room) c = absurd cc
  left_value-same (no_slice t) c = absurd cc
  left_value-same (arrayed t n) c = refl
  left_value-same (unknown n) c = refl
  left_value-same (mapped k t n) c = elim c [ ]
  left_value-same (no_map k t) c = elim c [ ]
  left_value-same (pointed h) c = elim c [ ]
  left_value-same (no_pointer t) c = elim c [ ]
  left_value-same (interfaced n) c = elim c [ ]
  left_value-same (no_interface) c = elim c [ ]
  left_value-same (channelled n) c = elim c [ ]
  left_value-same (no_channel) c = elim c [ ]
  left_value-same (function n) c = elim c [ ]
  left_value-same (no_function) c = elim c [ ]

  -- An array, a struct literal and a named type with no method Reset are left as they are.
  run_method-passes_over :
      (fields : Assoc Expr) (s : StructValue) (k : String) (t : Expr)
      → IsDistinct fields
      → lookup k fields ≡ some t
      → HasType t (s k)
      → IsPassedOver t
      → run_method reset fields s k ≡ s k
  run_method-passes_over fields s k t d h ty c =
      run_method-left_value reset fields s k t d h ty ∙ left_value-same ty c
