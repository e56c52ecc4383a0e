-- ===== src/Strconv.antt =====
-- strconv.ParseInt(s, 10, 64) and the verb %d at an int64, over the bytes of the text, as the
-- handlers use them.
mod Tests
use native.Mathlib.Nat.{pow-suc}
use study_project_metrics_an.Base.{
  ℕ, zero, suc, ◌+◌, ◌-◌, ◌*◌, ◌/◌, ◌%◌, ◌^◌, ◌≤◌, ◌<◌, ◌≡◌, refl, ap, ◌∙◌, Bool, true, false, ◌⊎◌,
  inl, inr, Bool-cases, ltb→lt, ltb→ge, ◌&&◌, Option, none, some, List, [], ◌∷◌, ◌++◌, arith, leb,
  ltb, eqb, if◌then◌else◌,
}
use study_project_metrics_an.Base.Int64.{Int64, modulus, IsInt64}
use study_project_metrics_an.Wire.{Bytes}

abbrev is_digit : ℕ → Bool
is_digit c = leb b'0' c && leb c b'9'

unfoldable pub parse_digits : ℕ → Bytes → Option ℕ
parse_digits n [] = some n
parse_digits n (c ∷ rest) =
    let more = parse_digits (n * 10 + (c - 48)) rest in if is_digit c then more else none

unfoldable pub parse_uint : Bytes → Option ℕ
unfolding parse_digits
parse_uint [] = none
parse_uint (c ∷ rest) = parse_digits 0 (c ∷ rest)

-- The bit pattern of a magnitude with a sign, if it fits.
abbrev in_range : Bool → Option ℕ → Option Int64
in_range negative none = none
in_range true (some n) = if leb n (2 ^ 63) then some ((modulus - n) % modulus) else none
in_range false (some n) = if ltb n (2 ^ 63) then some n else none

unfoldable pub parse_int : Bytes → Option Int64
unfolding parse_uint
parse_int [] = none
parse_int (c ∷ rest) =
    if eqb c b'+'
    then in_range false (parse_uint rest)
    else if eqb c b'-'
    then in_range true (parse_uint rest)
    else in_range false (parse_uint (c ∷ rest))

unfoldable pub digits : ℕ → ℕ → Bytes
digits zero n = []
digits (suc fuel) n =
    let front = digits fuel (n / 10) in
    if ltb n 10 then (48 + n) ∷ [] else front ++ (48 + n % 10) ∷ []

-- A number below 2 ^ 64 has at most 20 digits.
unfoldable pub format_uint : ℕ → Bytes
format_uint n = digits 20 n

unfoldable pub format_int : Int64 → Bytes
unfolding format_uint
format_int x = if ltb x (2 ^ 63) then format_uint x else b'-' ∷ format_uint (modulus - x)

abbrev shifted : ℕ → Option ℕ → Option ℕ
shifted d none = none
shifted d (some n) = some (n * 10 + d)

-- One more digit at the right end.
parse_digits-append :
    (n d : ℕ) (xs : Bytes)
    → d < 10
    → parse_digits n (xs ++ (48 + d) ∷ []) ≡ shifted d (parse_digits n xs)
unfolding parse_digits
parse_digits-append n d [] h = ground arith
parse_digits-append n d (c ∷ xs) h = ground (arith, parse_digits-append (n * 10 + (c - 48)) d xs h)

digits-suc :
    (fuel n : ℕ)
    → digits (suc fuel) n
      ≡ (if ltb n 10 then (48 + n) ∷ [] else digits fuel (n / 10) ++ (48 + n % 10) ∷ [])
unfolding digits
digits-suc fuel n = refl

one_digit : (n : ℕ) → n < 10 → parse_digits 0 ((48 + n) ∷ []) ≡ some n
unfolding parse_digits
one_digit n h = ground arith

parse_digits-digits :
    (fuel n : ℕ) → n < 10 ^ suc fuel → parse_digits 0 (digits (suc fuel) n) ≡ some n
parse_digits-digits zero n h =
    let small : ltb n 10 ≡ true = ground arith in rw (digits-suc zero n, small) (one_digit n h)
parse_digits-digits (suc fuel) n h = elim (Bool-cases (ltb n 10)) [
  | inl small ↦ rw (digits-suc (suc fuel) n, small) (one_digit n (ltb→lt n 10 small))
  | inr large ↦
      rw (digits-suc (suc fuel) n, large)
        (rw
          (
            parse_digits-append 0 (n % 10) (digits (suc fuel) (n / 10)) (omega arith),
            parse_digits-digits fuel (n / 10) (omega (arith, pow-suc 10 (suc fuel))),
          )
          (ap some (omega arith)))
]

-- The first byte of a printed number is a digit.
digits-head : (fuel n : ℕ) → (c : ℕ) × (rest : Bytes) × (digits (suc fuel) n ≡ c ∷ rest) × (48 ≤ c)
digits-head zero n = elim (Bool-cases (ltb n 10)) [
  | inl small ↦ (48 + n, [], rw (digits-suc zero n, small), omega arith)
  | inr large ↦
      (48 + n % 10, [], (rw (digits-suc zero n, large) (unfold digits in refl)), omega arith)
]
digits-head (suc fuel) n = elim (Bool-cases (ltb n 10)) [
  | inl small ↦ (48 + n, [], rw (digits-suc (suc fuel) n, small), omega arith)
  | inr large ↦
      let (c, rest, e, h) = digits-head fuel (n / 10) in
      (c, rest ++ (48 + n % 10) ∷ [], rw (digits-suc (suc fuel) n, large, e), h)
]

-- A text that begins with a digit is parsed without a sign.
parse_uint-digits :
    (xs : Bytes) (c : ℕ) (rest : Bytes) → xs ≡ c ∷ rest → parse_uint xs ≡ parse_digits 0 xs
unfolding parse_uint
parse_uint-digits xs c rest e = rw e

parse_int-digits :
    (xs : Bytes) (c : ℕ) (rest : Bytes)
    → xs ≡ c ∷ rest
    → 48 ≤ c
    → parse_int xs ≡ in_range false (parse_uint xs)
unfolding parse_int
parse_int-digits xs c rest e h =
    let plus : eqb c b'+' ≡ false = ground arith in
    let minus : eqb c b'-' ≡ false = ground arith in rw e (rw (plus, minus))

parse_uint-format_uint : (n : ℕ) → n ≤ modulus → parse_uint (format_uint n) ≡ some n
unfolding format_uint
parse_uint-format_uint n h =
    let (c, rest, e, _) = digits-head 19 n in
    parse_uint-digits (digits 20 n) c rest e ∙ parse_digits-digits 19 n (omega arith)

parse_int-format_uint : (n : ℕ) → n ≤ modulus → parse_int (format_uint n) ≡ in_range false (some n)
unfolding format_uint
parse_int-format_uint n h =
    let (c, rest, e, digit) = digits-head 19 n in
    parse_int-digits (digits 20 n) c rest e digit ∙ ap (in_range false) (parse_uint-format_uint n h)

parse_int-minus : (xs : Bytes) → parse_int (b'-' ∷ xs) ≡ in_range true (parse_uint xs)
unfolding parse_int
parse_int-minus xs = refl

in_range-minus : (x : Int64) → IsInt64 x → 2 ^ 63 ≤ x → in_range true (some (modulus - x)) ≡ some x
in_range-minus x h large = ground arith

-- Printing a counter and parsing the text gives the counter back, at every int64.
pub parse_int-format_int : (x : Int64) → IsInt64 x → parse_int (format_int x) ≡ some x
unfolding format_int
parse_int-format_int x h = elim (Bool-cases (ltb x (2 ^ 63))) [
  | inl small ↦ rw small (parse_int-format_uint x (omega arith) ∙ rw small)
  | inr large ↦
      rw (large, parse_int-minus, parse_uint-format_uint (modulus - x) (omega arith))
        (in_range-minus x h (ltb→ge x (2 ^ 63) large))
]

-- Whatever the text, a number that is accepted fits int64.
pub parse_int-IsInt64 : (xs : Bytes) (x : Int64) → parse_int xs ≡ some x → IsInt64 x
unfolding parse_int
parse_int-IsInt64 [] x h = cc
parse_int-IsInt64 (c ∷ rest) x h = ground arith
