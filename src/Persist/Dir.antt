-- ===== src/Persist/Dir.antt =====
-- dirOf: the directory in front of the last separator of a path.
use native.Mathlib.Nat.{zero-add, suc-add, add-suc, add-zero}
use study_project_metrics_an.Base.{
  ℕ, zero, suc, ◌+◌, ◌≤◌, ◌<◌, ◌≡◌, refl, true, false, [], ◌∷◌, ◌++◌, arith, All, take-append,
  length, length-append, get_or,
}
use study_project_metrics_an.Wire.{Bytes}
use study_project_metrics_an.Persist.{is_separator, dir_from, dir_of}

get_or-append : (xs : Bytes) (y : ℕ) (ys : Bytes) → get_or (xs ++ y ∷ ys) (length xs) 0 ≡ y
get_or-append [] y ys = refl
get_or-append (x ∷ xs) y ys = get_or-append xs y ys

get_or-append_right : (xs ys : Bytes) (i : ℕ) → get_or (xs ++ ys) (length xs + i) 0 ≡ get_or ys i 0
get_or-append_right [] ys i = rw zero-add
get_or-append_right (x ∷ xs) ys i = rw suc-add (get_or-append_right xs ys i)

abbrev pub NoSeparator : Bytes → Type 0
NoSeparator name = All (λ c. is_separator c ≡ false) name

get_or-NoSeparator :
    (name : Bytes) (i : ℕ)
    → NoSeparator name
    → i < length name
    → is_separator (get_or name i 0) ≡ false
get_or-NoSeparator [] i h lt = absurd (omega arith)
get_or-NoSeparator (c ∷ name) zero h lt = h.0
get_or-NoSeparator (c ∷ name) (suc i) h lt = get_or-NoSeparator name i h.1 (omega arith)

module _ (dir : Bytes) (sep : ℕ) (name : Bytes) (s : is_separator sep ≡ true)
    (h : NoSeparator name) where
  -- The loop passes over a name and stops at the separator in front of it.
  dir_from-name :
      (i : ℕ) → i ≤ length name → dir_from (dir ++ sep ∷ name) (suc (length dir + i)) ≡ dir
  unfolding dir_from
  dir_from-name zero le = rw add-zero (rw get_or-append (rw s (take-append dir (sep ∷ name))))
  dir_from-name (suc i) le =
      rw (get_or-append_right dir (sep ∷ name) (suc i), get_or-NoSeparator name i h le)
        (rw add-suc (dir_from-name i (omega arith)))

  -- The directory of a path is what stands before its last separator.
  pub dir_of-append : dir_of (dir ++ sep ∷ name) ≡ dir
  unfolding dir_of
  dir_of-append =
      rw (length-append dir (sep ∷ name), add-suc (length dir) (length name))
        (dir_from-name (length name) (omega arith))

dir_from-bare :
    (name : Bytes) (i : ℕ) → NoSeparator name → i ≤ length name → dir_from name i ≡ b'.' ∷ []
unfolding dir_from
dir_from-bare name zero h le = refl
dir_from-bare name (suc i) h le =
    rw (get_or-NoSeparator name i h le) (dir_from-bare name i h (omega arith))

-- A path with no separator lies in the directory ".".
pub dir_of-bare : (name : Bytes) → NoSeparator name → dir_of name ≡ b'.' ∷ []
unfolding dir_of
dir_of-bare name h = dir_from-bare name (length name) h (omega arith)
