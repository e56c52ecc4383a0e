-- ===== src/Config/Path.antt =====
-- Which of several paths to the configuration file counts.
use mathlib.Core.Path.{subst}
use study_project_metrics_an.Base.{
  String, ◌≡◌, ◌⊎◌, inl, inr, refl, sym, ◌∙◌, ap, none, some, List, [], ◌∷◌, ◌++◌, All,
}
use study_project_metrics_an.Config.{
  behind, match_names, config_names, or_path, scan, find_config_path,
}

-- An argument that names no configuration file.
abbrev pub IsPlain : String → Type 0
IsPlain arg = (rest : List String) (path : String) → match_names config_names arg rest path ≡ none

-- The four spellings of the flag.
abbrev pub IsName : String → Type 0
IsName name = (name ≡ "-c") ⊎ (name ≡ "--c") ⊎ (name ≡ "-config") ⊎ (name ≡ "--config")

match_names-IsName :
    (name next : String) (rest : List String) (path : String)
    → IsName name
    → match_names config_names name (next ∷ rest) path ≡ some next
unfolding match_names behind
match_names-IsName name next rest path (inl h) =
    subst (λ n. match_names config_names n (next ∷ rest) path ≡ some next) (sym h) refl
match_names-IsName name next rest path (inr (inl h)) =
    subst (λ n. match_names config_names n (next ∷ rest) path ≡ some next) (sym h) refl
match_names-IsName name next rest path (inr (inr (inl h))) =
    subst (λ n. match_names config_names n (next ∷ rest) path ≡ some next) (sym h) refl
match_names-IsName name next rest path (inr (inr (inr h))) =
    subst (λ n. match_names config_names n (next ∷ rest) path ≡ some next) (sym h) refl

-- What stands in front only changes the path that the scan goes on with.
scan-append :
    (xs ys : List String) (path : String)
    → (path' : String) × (scan (xs ++ ys) path ≡ scan ys path')
unfolding scan
scan-append [] ys path = (path, refl)
scan-append (x ∷ xs) ys path =
    scan-append xs ys (or_path (match_names config_names x (xs ++ ys) path) path)

scan-plain : (xs : List String) (path : String) → All IsPlain xs → scan xs path ≡ path
unfolding scan
scan-plain [] path h = refl
scan-plain (x ∷ xs) path (p, h) =
    ap (λ o. scan xs (or_path o path)) (p xs path) ∙ scan-plain xs path h

-- With no configuration flag among the arguments the path is that of CONFIG.
pub find_config_path-env :
    (config : String) (args : List String)
    → All IsPlain args
    → find_config_path config args ≡ config
unfolding find_config_path
find_config_path-env config args h = scan-plain args config h

-- The last configuration flag counts, in any of its four spellings, over CONFIG and over every flag
-- in front of it: if the path behind it and the arguments behind that are plain, it is the result.
pub find_config_path-last :
    (config name path : String) (args rest : List String)
    → IsName name
    → All IsPlain (path ∷ rest)
    → find_config_path config (args ++ (name ∷ path ∷ rest)) ≡ path
unfolding find_config_path scan
find_config_path-last config name path args rest named plain =
    let (before, e) = scan-append args (name ∷ path ∷ rest) config in
    e
    ∙ ap (λ o. scan (path ∷ rest) (or_path o before))
        (match_names-IsName name path rest before named)
    ∙ scan-plain (path ∷ rest) path plain
