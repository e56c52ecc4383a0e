-- ===== src/Pool.antt =====
-- internal/pool/pool.go: the pool of objects that are reset before they are used again. Of sync.Pool
-- the model has what it promises: Get gives any object that was put back or makes a new one, and
-- an object in the pool can vanish at any time. A caller that goes on using an object after Put is not
-- modelled.
pub mod Clean
mod Tests
use study_project_metrics_an.Base.{◌≡◌, List, [], ◌∷◌, ◌++◌, Option, none, some}

-- How objects are made and reset; `zero` is the zero value of the type.
pub record Objects (T : Type 0) : Type 0 where
  pub reset : T → T
  pub zero : T

-- New of the sync.Pool, set from `newFunc`, which can be nil.
unfoldable pub new_object : {T : Type 0} → Objects T → Option T → T
new_object o none = o.zero
new_object o (some made) = made

-- The objects in the pool, and those that Get gave to a caller, the last first.
pub record Pool (T : Type 0) : Type 0 where
  pub idle : List T
  pub given : List T

abbrev pub new : {T : Type 0} → Pool T
new = record { idle = []; given = [] }

-- `new_func` gives what each call of newFunc makes, or is nil. A caller puts back any value.
pub data Step {T : Type 0} (o : Objects T) (new_func : Option T) (p : Pool T)
    : Pool T → Type 0 where
  get :
      (before after : List T) (x : T)
      → p.idle ≡ before ++ (x ∷ after)
      → Step o new_func p (record { idle = before ++ after; given = x ∷ p.given })
  get_new : Step o new_func p (record p { given = new_object o new_func ∷ p.given })
  put : (v : T) → Step o new_func p (record p { idle = o.reset v ∷ p.idle })
  vanish :
      (before after : List T) (x : T)
      → p.idle ≡ before ++ (x ∷ after)
      → Step o new_func p (record p { idle = before ++ after })

pub data Reach {T : Type 0} (o : Objects T) (new_func : Option T) : Pool T → Type 0 where
  here : Reach o new_func new
  next : {p q : Pool T} → Reach o new_func p → Step o new_func p q → Reach o new_func q
