-- ===== src/Retry/Tests.antt =====
-- The retry loops run on concrete operations.
use study_project_metrics_an.Base.{
  ℕ, zero, suc, ◌+◌, ◌≡◌, refl, Bool, true, false, Option, none, some, arith,
}
use study_project_metrics_an.Retry.{attempt_loop, with_retry}
use study_project_metrics_an.Retry.Laws.{with_retry-exhausts}

-- An operation that counts its calls and succeeds from the third one on.
unfoldable third_time : ℕ → ℕ × Option ℕ
third_time zero = (1, some 7)
third_time (suc zero) = (2, some 7)
third_time (suc (suc n)) = (suc (suc (suc n)), none)

-- An operation that never succeeds.
unfoldable never : ℕ → ℕ × Option ℕ
never n = (n + 1, some 7)

unfoldable every_error : ℕ → Bool
every_error e = true

unfoldable never_ends : ℕ → Bool
never_ends d = false

unfoldable from_two : ℕ → Bool
from_two zero = false
from_two (suc zero) = false
from_two (suc (suc d)) = true

third_time-run : with_retry third_time every_error never_ends 9 0 ≡ (3, none)
unfolding third_time every_error never_ends with_retry attempt_loop
third_time-run = refl

third_time-ended : with_retry third_time every_error from_two 9 0 ≡ (2, some 9)
unfolding third_time every_error from_two with_retry attempt_loop
third_time-ended = refl

reports_none : (with_retry third_time every_error never_ends 9 0).1 ≡ none
unfolding third_time every_error never_ends with_retry attempt_loop
reports_none = refl

unfoldable count : ℕ → ℕ
count n = n

third_time-counts : (t : ℕ) → count (third_time t).0 ≡ count t + 1
unfolding third_time count
third_time-counts zero = refl
third_time-counts (suc zero) = refl
third_time-counts (suc (suc t)) = omega arith

never-counts : (t : ℕ) → count (never t).0 ≡ count t + 1
unfolding never count
never-counts t = refl

never-fails : (t : ℕ) → (e : ℕ) × ((never t).1 ≡ some e) × (every_error e ≡ true)
unfolding never every_error
never-fails t = (7, refl, refl)

never_ends-lasts : (d : ℕ) → never_ends d ≡ false
unfolding never_ends
never_ends-lasts d = refl

with_retry-exhausts_example : count (with_retry never every_error never_ends 9 0).0 ≡ count 0 + 4
with_retry-exhausts_example =
    with_retry-exhausts never every_error never_ends 9 0 count never-counts never-fails
      never_ends-lasts
