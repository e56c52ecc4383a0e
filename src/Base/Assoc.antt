-- ===== src/Base/Assoc.antt =====
-- A Go map with text keys, as an association list with one entry for each key. `range` visits the
-- entries in an order that Go leaves open: a loop over a map takes the visited entries as a list
-- that is a listing of the map.
use mathlib.Core.Path.{◌≡◌, refl}
use mathlib.Core.Logic.{◌≢◌}
use mathlib.Core.Option.{Option, none, some}
use mathlib.Core.List.{List, [], ◌∷◌}
use native.Mathlib.Omega.{arith}
use text.Mathlib.Text.{◌==◌}
use study_project_metrics_an.Base.Tests.{if◌then◌else◌}
use Prim.Native.String.{String}
use text.Mathlib.TextEquality.{eq_iff}

abbrev pub Assoc {ℓ} : Type ℓ → Type ℓ
Assoc Value = List (String × Value)

module _ {ℓ} {V : Type ℓ} where
  unfoldable pub lookup : String → Assoc V → Option V
  lookup name [] = none
  lookup name ((other, value) ∷ rest) = if other == name then some value else lookup name rest

  -- `m[k] = v`
  unfoldable pub insert : String → V → Assoc V → Assoc V
  insert name value [] = (name, value) ∷ []
  insert name value ((other, old) ∷ rest) =
      if other == name then (name, value) ∷ rest else (other, old) ∷ insert name value rest

  -- No key stands twice.
  abbrev pub IsDistinct : Assoc V → Type ℓ
  IsDistinct [] = Unit
  IsDistinct ((j, v) ∷ m) = (lookup j m ≡ none) × IsDistinct m

  -- Only the key that was assigned reads differently.
  pub lookup-insert :
      (name key : String) (value : V) (m : Assoc V)
      → lookup key (insert name value m) ≡ (if name == key then some value else lookup key m)
  unfolding insert lookup
  lookup-insert name key value [] = refl
  lookup-insert name key value ((other, old) ∷ rest) = ground (
    arith,
    lookup-insert name key value rest,
    eq_iff other name,
    eq_iff other key,
    eq_iff name key,
  )

  pub insert-IsDistinct :
      (k : String) (v : V) (m : Assoc V) → IsDistinct m → IsDistinct (insert k v m)
  unfolding lookup insert
  insert-IsDistinct k v [] h = (refl, tt)
  insert-IsDistinct k v ((i, w) ∷ m) h =
      ground (arith, eq_iff k i, eq_iff i k, insert-IsDistinct k v m h.1, lookup-insert k i v m)

  pub record IsListing (m l : Assoc V) : Type ℓ where
    pub distinct : IsDistinct l
    pub same : (k : String) → lookup k l ≡ lookup k m

module _ {ℓ} {V : Type ℓ} where
  -- `delete(m, k)`
  unfoldable pub remove : String → Assoc V → Assoc V
  remove k [] = []
  remove k ((j, v) ∷ m) = let rest = remove k m in if j == k then rest else (j, v) ∷ rest

  pub lookup-remove :
      (k j : String) (m : Assoc V) → lookup j (remove k m) ≡ (if k == j then none else lookup j m)
  unfolding lookup remove
  lookup-remove k j [] = ground arith
  lookup-remove k j ((i, v) ∷ m) =
      ground (arith, lookup-remove k j m, eq_iff i k, eq_iff i j, eq_iff k j)

  pub lookup-insert_self : (k : String) (v : V) (m : Assoc V) → lookup k (insert k v m) ≡ some v
  lookup-insert_self k v m = ground (arith, lookup-insert k k v m, eq_iff k k)

  pub lookup-insert_ne :
      (k j : String) (v : V) (m : Assoc V) → k ≢ j → lookup j (insert k v m) ≡ lookup j m
  lookup-insert_ne k j v m h = ground (arith, lookup-insert k j v m, eq_iff k j)

  pub lookup-remove_self : (k : String) (m : Assoc V) → lookup k (remove k m) ≡ none
  lookup-remove_self k m = ground (arith, lookup-remove k k m, eq_iff k k)

  pub lookup-remove_ne : (k j : String) (m : Assoc V) → k ≢ j → lookup j (remove k m) ≡ lookup j m
  lookup-remove_ne k j m h = ground (arith, lookup-remove k j m, eq_iff k j)

  -- A key that was not there is added and taken away again.
  pub remove-insert :
      (k j : String) (v : V) (m : Assoc V)
      → lookup k m ≡ none
      → lookup j (remove k (insert k v m)) ≡ lookup j m
  remove-insert k j v m h =
      ground (arith, lookup-remove k j (insert k v m), lookup-insert k j v m, eq_iff k j)
