-- ===== src/Reset/Walk.antt =====
-- main of cmd/reset/main.go: the directories that the generator visits.
use Prim.Native.Char.{code}
use study_project_metrics_an.Base.{
  String, ◌≡◌, refl, sym, Bool, false, ◌||◌, List, [], ◌∷◌, ◌++◌, ◌==◌, eqb, if◌then◌else◌, All,
  All-append, Bool-cases, inl, inr, append_assoc,
}
use mathlib.Core.List.{Memᴰ}
use mathlib.Core.List.Memᴰ.{head, tail, append_left, append_right}

-- A directory with its name and the directories in it, in the order of filepath.Walk.
mutual
  pub data Dir : Type 0 where
    dir : String → Dirs → Dir

  pub data Dirs : Type 0 where
    no_dirs : Dirs
    more : Dir → Dirs → Dirs

abbrev is_dot : String → Bool
is_dot String.[] = false
is_dot (String.◌∷◌ c t) = eqb (code c) b'.'

-- The names that are skipped with all that is below them; the root is never skipped.
unfoldable pub is_skipped : String → Bool
is_skipped name = is_dot name || name == "vendor" || name == "testdata"

-- The directories for which processDir is called, each as the names from the root to it; `path`
-- leads to where the walk is.
unfoldable mutual
  pub below : List String → Dir → List (List String)
  below path (dir name dirs) =
      let inner = all_below (path ++ name ∷ []) dirs in
      if is_skipped name then [] else (path ++ name ∷ []) ∷ inner

  pub all_below : List String → Dirs → List (List String)
  all_below path no_dirs = []
  all_below path (more d dirs) = below path d ++ all_below path dirs

unfoldable pub visited : Dir → List (List String)
unfolding below all_below
visited (dir name dirs) = [] ∷ all_below [] dirs

-- A path to a directory below, by the names on it.
pub data Has : List String → Dirs → Type 0 where
  found : (name : String) (dirs rest : Dirs) → Has (name ∷ []) (more (dir name dirs) rest)
  inside :
      {p : List String} {dirs : Dirs} (name : String) (rest : Dirs)
      → Has p dirs
      → Has (name ∷ p) (more (dir name dirs) rest)
  beside : {p : List String} {dirs : Dirs} (d : Dir) → Has p dirs → Has p (more d dirs)

abbrev pub IsWalked : String → Type 0
IsWalked name = is_skipped name ≡ false

mutual
  unfolding below all_below

  below-IsWalked :
      (path : List String) (d : Dir) → All IsWalked path → All (All IsWalked) (below path d)
  below-IsWalked path (dir name dirs) h = elim (Bool-cases (is_skipped name)) [
    | inl s ↦ rw (s, below) tt
    | inr n ↦
        let longer = All-append IsWalked path (name ∷ []) h (n, tt) in
        rw (n, below) (longer, all_below-IsWalked (path ++ name ∷ []) dirs longer)
  ]

  all_below-IsWalked :
      (path : List String) (dirs : Dirs)
      → All IsWalked path
      → All (All IsWalked) (all_below path dirs)
  all_below-IsWalked path no_dirs h = tt
  all_below-IsWalked path (more d dirs) h =
      All-append (All IsWalked) (below path d) (all_below path dirs) (below-IsWalked path d h)
        (all_below-IsWalked path dirs h)

all_below-complete :
    (path p : List String) (dirs : Dirs)
    → Has p dirs
    → All IsWalked p
    → Memᴰ (path ++ p) (all_below path dirs)
unfolding all_below below
all_below-complete path p dirs (found name inner rest) (n, _) =
    append_left (all_below path rest) (rw (n, below) (head refl))
all_below-complete path p dirs (inside {p = q} {dirs = inner} name rest h) (n, k) =
    append_left (all_below path rest) (
      rw (n, below)
        (tail (
          rw (sym (append_assoc path (name ∷ []) q))
            (all_below-complete (path ++ name ∷ []) q inner h k))))
all_below-complete path p dirs (beside {dirs = ds} d h) k =
    append_right (below path d) (all_below-complete path p ds h k)

-- The generator goes into no directory whose name starts with a dot or is vendor or testdata, nor
-- below one: no name on the way from the root to a directory that is processed is one of these.
pub visited-IsWalked : (d : Dir) → All (All IsWalked) (visited d)
unfolding visited
visited-IsWalked (dir name dirs) = (tt, all_below-IsWalked [] dirs tt)

-- The generator leaves no other directory out: each one below the root that is reached by names
-- that are not skipped is processed.
pub visited-complete :
    (name : String) (dirs : Dirs) (p : List String)
    → Has p dirs
    → All IsWalked p
    → Memᴰ p (visited (dir name dirs))
unfolding visited
visited-complete name dirs p h k = tail (all_below-complete [] p dirs h k)
