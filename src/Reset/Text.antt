-- ===== src/Reset/Text.antt =====
-- What the generator uses of the packages strings and unicode.
use Prim.Native.Char.{code}
use Prim.Native.String
use study_project_metrics_an.Base.{
  ℕ, String, Bool, ◌&&◌, ◌||◌, Option, none, some, List, [], ◌∷◌, eqb, leb, if◌then◌else◌,
}
use Prim.Native.Char.{Char}

abbrev pub concat : List String → String
concat [] = ""
concat (s ∷ []) = s
concat (s ∷ t ∷ parts) = String.◌++◌ s (concat (t ∷ parts))

abbrev between : ℕ → ℕ → ℕ → Bool
between low high n = leb low n && leb n high

-- unicode.IsSpace of a code point.
abbrev pub is_space : ℕ → Bool
is_space n =
    between 9 13 n
    || eqb n 32
    || eqb n 133
    || eqb n 160
    || eqb n 0x1680
    || between 0x2000 0x200a n
    || between 0x2028 0x2029 n
    || eqb n 0x202f
    || eqb n 0x205f
    || eqb n 0x3000

abbrev pub trim_left : String → String
trim_left String.[] = String.[]
trim_left (String.◌∷◌ c t) =
    let rest = trim_left t in if is_space (code c) then rest else String.◌∷◌ c t

-- A character in front of what is left of the text behind it.
abbrev pub keep : Char → String → String
keep c String.[] = if is_space (code c) then String.[] else String.◌∷◌ c String.[]
keep c (String.◌∷◌ d t) = String.◌∷◌ c (String.◌∷◌ d t)

abbrev pub trim_right : String → String
trim_right String.[] = String.[]
trim_right (String.◌∷◌ c t) = keep c (trim_right t)

unfoldable pub trim_space : String → String
trim_space t = trim_right (trim_left t)

-- The tables of package unicode.
pub record Unicode : Type 0 where
  pub is_letter : Char → Bool
  pub to_lower : Char → Char

unfoldable pub first_letter : Unicode → String → Option String
first_letter unicode String.[] = none
first_letter unicode (String.◌∷◌ c t) =
    let rest = first_letter unicode t in
    if unicode.is_letter c then some (String.◌∷◌ (unicode.to_lower c) String.[]) else rest
