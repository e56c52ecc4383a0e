-- ===== src/Pool/Tests.antt =====
-- A pool of numbers of which a reset makes 0.
use study_project_metrics_an.Base.{ℕ, refl, [], ◌∷◌, some, All}
use study_project_metrics_an.Pool.{Objects, get, get_new, put, Reach, here, next, new_object}
use study_project_metrics_an.Pool.Clean.{IsClean, Reach-IsClean}

abbrev numbers : Objects ℕ
numbers = record { reset = λ n. 0; zero = 0 }

-- Nine is made, 5 is put back, and the object that was put back is given.
Reach-given : Reach numbers (some 9) (record { idle = []; given = 0 ∷ 9 ∷ [] })
unfolding new_object
Reach-given = next (next (next here get_new) (put 5)) (get [] [] 0 refl)

Reach-IsClean_example : All (IsClean numbers (some 9)) (0 ∷ 9 ∷ [])
Reach-IsClean_example = Reach-IsClean numbers (some 9) Reach-given
