-- ===== src/Pool/Clean.antt =====
-- Every caller gets a clean object.
use study_project_metrics_an.Base.{
  ◌≡◌, refl, ◌⊎◌, inl, inr, List, [], ◌∷◌, ◌++◌, Option, All, All-append,
}
use study_project_metrics_an.Pool.{
  Objects, new_object, Pool, Step, get, get_new, put, vanish, Reach, here, next,
}

module _ {T : Type 0} (o : Objects T) (new_func : Option T) where
  -- An object that has just been reset, or one that is new.
  abbrev pub IsReset : T → Type 0
  IsReset x = (v : T) × (x ≡ o.reset v)

  abbrev pub IsClean : T → Type 0
  IsClean x = (x ≡ new_object o new_func) ⊎ IsReset x

  record IsTidy (p : Pool T) : Type 0 where
    idle : All IsReset p.idle
    given : All IsClean p.given

  All-left : {A : Type 0} (P : A → Type 0) (xs ys : List A) → All P (xs ++ ys) → All P xs × All P ys
  All-left P [] ys h = (tt, h)
  All-left P (x ∷ xs) ys (p, h) = let (a, b) = All-left P xs ys h in ((p, a), b)

  without :
      (before after : List T) (x : T)
      → All IsReset (before ++ (x ∷ after))
      → IsReset x × All IsReset (before ++ after)
  without before after x h =
      let (b, (r, a)) = All-left IsReset before (x ∷ after) h in
      (r, All-append IsReset before after b a)

  step-IsTidy : {p q : Pool T} → Step o new_func p q → IsTidy p → IsTidy q
  step-IsTidy (get before after x e) i =
      let (r, rest) = without before after x (rw e at i.idle) in
      record { idle = rest; given = (inr r, i.given) }
  step-IsTidy get_new i = record { idle = i.idle; given = (inl refl, i.given) }
  step-IsTidy (put v) i = record { idle = ((v, refl), i.idle); given = i.given }
  step-IsTidy (vanish before after x e) i =
      let (_, rest) = without before after x (rw e at i.idle) in
      record { idle = rest; given = i.given }

  Reach-IsTidy : {p : Pool T} → Reach o new_func p → IsTidy p
  Reach-IsTidy here = record { idle = tt; given = tt }
  Reach-IsTidy (next r step) = step-IsTidy step (Reach-IsTidy r)

  -- Whatever callers put back, and whatever the pool drops, each object that Get gives is as newFunc
  -- makes it, or the zero value where that is nil, or has been reset after it was put back.
  pub Reach-IsClean : {p : Pool T} → Reach o new_func p → All IsClean p.given
  Reach-IsClean r = (Reach-IsTidy r).given
