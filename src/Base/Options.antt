-- ===== src/Base/Options.antt =====
-- Chains of results of which the first error ends the whole.
use mathlib.Core.Path.{◌≡◌, refl}
use mathlib.Core.Option.{Option, none, some}

infixl 5 ◌>>=◌
abbrev pub ◌>>=◌ {ℓ κ} : {A : Type ℓ} {B : Type κ} → Option A → (A → Option B) → Option B
none >>= next = none
some a >>= next = next a

-- A chain that gives a result has one at its first link.
pub bind-some {ℓ κ} :
    {A : Type ℓ} {B : Type κ} (o : Option A) (next : A → Option B) {b : B}
    → (o >>= next) ≡ some b
    → (a : A) × (o ≡ some a) × (next a ≡ some b)
bind-some none next h = absurd cc
bind-some (some a) next h = (a, refl, h)
