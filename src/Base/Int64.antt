-- ===== src/Base/Int64.antt =====
-- Go's int64 as its bit pattern, a number below 2 ^ 64, and the integer that it stands for.
use Prim.Native.Nat.{ℕ, ◌+◌, ◌-◌, ◌%◌, ◌^◌, ◌<◌}
use mathlib.Core.Path.{◌≡◌}
use mathlib.Core.Bool.{Bool, ◌&&◌}
use native.Mathlib.Omega.{arith}
use study_project_metrics_an.Base.Tests.{ltb, if◌then◌else◌}

abbrev pub Int64 : Type 0
Int64 = ℕ

abbrev pub modulus : ℕ
modulus = 2 ^ 64

abbrev pub IsInt64 : Int64 → Type 0
IsInt64 x = x < modulus

-- `a + b` wraps round.
unfoldable pub add64 : Int64 → Int64 → Int64
add64 a b = (a + b) % modulus

pub add64-IsInt64 : (a b : Int64) → IsInt64 (add64 a b)
unfolding add64
add64-IsInt64 a b = omega arith

pub add64_assoc : (a b c : Int64) → add64 (add64 a b) c ≡ add64 a (add64 b c)
unfolding add64
add64_assoc a b c = omega arith

pub add64_comm : (a b : Int64) → add64 a b ≡ add64 b a
unfolding add64
add64_comm a b = omega arith

pub zero-add64 : (a : Int64) → IsInt64 a → add64 0 a ≡ a
unfolding add64
zero-add64 a h = omega arith

pub add64-zero : (a : Int64) → IsInt64 a → add64 a 0 ≡ a
unfolding add64
add64-zero a h = omega arith

-- `x > 0` of the integer that the pattern stands for.
abbrev pub is_positive : Int64 → Bool
is_positive x = ltb 0 x && ltb x (2 ^ 63)

-- `negsuc n` is -(n + 1).
pub data ℤ : Type 0 where
  pos : ℕ → ℤ
  negsuc : ℕ → ℤ

-- The two's complement reading of a bit pattern.
unfoldable pub to_ℤ : Int64 → ℤ
to_ℤ x = if ltb x (2 ^ 63) then pos x else negsuc (modulus - 1 - x)
