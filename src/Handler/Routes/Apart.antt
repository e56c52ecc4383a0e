-- ===== src/Handler/Routes/Apart.antt =====
-- Patterns that no path fits both of.
use study_project_metrics_an.Base.{
  ℕ, zero, suc, String, ◌≡◌, refl, ap, Bool, true, false, not, ◌&&◌, ◌||◌, Option, none, some, List,
  [], ◌∷◌, map, ◌==◌, eq_iff, arith,
}
use study_project_metrics_an.Base.Assoc.{Assoc}
use study_project_metrics_an.Handler.{Handlers}
use study_project_metrics_an.Handler.Routes.{
  Segment, literal, param, Pattern, fits, FitsAt, key, register_routes, taken,
}

-- Two segments at the same place differ.
abbrev differ : Segment → Segment → Bool
differ (literal a) (literal b) = not (a == b)
differ (literal a) (param y) = false
differ (param x) t = false

unfoldable pub apart : Pattern → Pattern → Bool
apart [] [] = false
apart [] (y ∷ q) = true
apart (x ∷ p) [] = true
apart (x ∷ p) (y ∷ q) = differ x y || apart p q

abbrev apart_keys : String × Pattern → String × Pattern → Bool
apart_keys k l = not (k.0 == l.0) || apart k.1 l.1

unfoldable apart_from : String × Pattern → List (String × Pattern) → Bool
apart_from k [] = true
apart_from k (l ∷ keys) = apart_keys k l && apart_from k keys

unfoldable pub all_apart : List (String × Pattern) → Bool
unfolding apart_from apart
all_apart [] = true
all_apart (k ∷ keys) = apart_from k keys && all_apart keys

fits-literal :
    (a s : String) (p : Pattern) (path : List String) (params : Assoc String)
    → fits (literal a ∷ p) (s ∷ path) ≡ some params
    → (a ≡ s) × (fits p path ≡ some params)
unfolding fits
fits-literal a s p path params f = ground (arith, eq_iff a s)

taken-some :
    (name s : String) (o : Option (Assoc String)) {params : Assoc String}
    → taken name s o ≡ some params
    → (rest : Assoc String) × (o ≡ some rest)
taken-some name s none h = absurd cc
taken-some name s (some rest) h = (rest, refl)

fits-tail :
    (x : Segment) (s : String) (p : Pattern) (path : List String) (params : Assoc String)
    → fits (x ∷ p) (s ∷ path) ≡ some params
    → (rest : Assoc String) × (fits p path ≡ some rest)
unfolding fits
fits-tail (literal a) s p path params f = (params, (fits-literal a s p path params f).1)
fits-tail (param name) s p path params f = taken-some name s (fits p path) f

fits-same :
    (x y : Segment) (s : String) (p q : Pattern) (path : List String)
    (some_params params : Assoc String)
    → fits (x ∷ p) (s ∷ path) ≡ some some_params
    → fits (y ∷ q) (s ∷ path) ≡ some params
    → differ x y ≡ false
fits-same (literal a) (literal b) s p q path c d f g =
    ground (arith, fits-literal a s p path c f, fits-literal b s q path d g, eq_iff a b)
fits-same (literal a) (param y) s p q path c d f g = refl
fits-same (param x) y s p q path c d f g = refl

or-left : (b t : Bool) → (b || t) ≡ true → b ≡ false → (t ≡ true → ⊥) → ⊥
or-left true t e f g = cc
or-left false t e f g = g e

apart-fits :
    (p q : Pattern) (path : List String) (c d : Assoc String)
    → apart p q ≡ true
    → fits p path ≡ some c
    → fits q path ≡ some d
    → ⊥
unfolding fits apart
apart-fits [] [] path c d e f g = cc
apart-fits [] (y ∷ q) [] c d e f g = cc
apart-fits [] (y ∷ q) (s ∷ path) c d e f g = cc
apart-fits (x ∷ p) [] [] c d e f g = cc
apart-fits (x ∷ p) [] (s ∷ path) c d e f g = cc
apart-fits (x ∷ p) (y ∷ q) [] c d e f g = cc
apart-fits (x ∷ p) (y ∷ q) (s ∷ path) c d e f g =
    let (c', f') = fits-tail x s p path c f in
    let (d', g') = fits-tail y s q path d g in
    or-left (differ x y) (apart p q) e (fits-same x y s p q path c d f g)
      (λ h. apart-fits p q path c' d' h f' g')

keys-clash :
    (k l : String × Pattern) (method : String) (path : List String) (c d : Assoc String)
    → apart_keys k l ≡ true
    → FitsAt (k ∷ []) 0 method path c
    → FitsAt (l ∷ []) 0 method path d
    → ⊥
unfolding FitsAt
keys-clash k l method path c d e (m, f) (n, g) =
    or-left (not (k.0 == l.0)) (apart k.1 l.1) e (ground (arith, eq_iff k.0 l.0))
      (λ h. apart-fits k.1 l.1 path c d h f g)

from-clash :
    (k : String × Pattern) (keys : List (String × Pattern)) (i : ℕ) (method : String)
    (path : List String) (c d : Assoc String)
    → apart_from k keys ≡ true
    → FitsAt (k ∷ []) 0 method path c
    → FitsAt keys i method path d
    → ⊥
unfolding FitsAt apart_from
from-clash k [] i method path c d e f g = g
from-clash k (l ∷ keys) zero method path c d e f g =
    keys-clash k l method path c d (ground arith) f g
from-clash k (l ∷ keys) (suc i) method path c d e f g =
    from-clash k keys i method path c d (ground arith) f g

-- One route alone fits a path, and its parameters are determined.
pub FitsAt-unique :
    (keys : List (String × Pattern)) (i j : ℕ) (method : String) (path : List String)
    (c d : Assoc String)
    → all_apart keys ≡ true
    → FitsAt keys i method path c
    → FitsAt keys j method path d
    → (i ≡ j) × (c ≡ d)
unfolding FitsAt all_apart
FitsAt-unique [] i j method path c d e f g = absurd f
FitsAt-unique (k ∷ keys) zero zero method path c d e f g = (refl, ground arith)
FitsAt-unique (k ∷ keys) zero (suc j) method path c d e f g =
    absurd (from-clash k keys j method path c d (ground arith) f g)
FitsAt-unique (k ∷ keys) (suc i) zero method path c d e f g =
    absurd (from-clash k keys i method path d c (ground arith) g f)
FitsAt-unique (k ∷ keys) (suc i) (suc j) method path c d e f g =
    let (same, params) = FitsAt-unique keys i j method path c d (ground arith) f g in
    (ap suc same, params)

-- No request fits two of the routes of RegisterRoutes.
pub register_routes-apart :
    {S : Type 0} (h : Handlers S) → all_apart (map key (register_routes h)) ≡ true
unfolding register_routes all_apart apart_from apart
register_routes-apart h = refl
