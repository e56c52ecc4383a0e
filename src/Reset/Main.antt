-- ===== src/Reset/Main.antt =====
-- main of cmd/reset/main.go: the walk through the directories, which ends at the first error, and the
-- files that it writes.
use Prim.Native.String
use study_project_metrics_an.Base.{
  if◌then◌else◌, ◌==◌, ℕ, String, ◌≡◌, ◌≢◌, refl, ◌∙◌, Bool, true, false, Option, none, some, List,
  [], ◌∷◌, arith, eq_iff,
}
use mathlib.Core.List.{Memᴰ}
use mathlib.Core.List.Memᴰ.{head, tail}
use study_project_metrics_an.Base.Assoc.{lookup, lookup-insert}
use study_project_metrics_an.Wire.{Bytes}
use study_project_metrics_an.Persist.{Disk}
use study_project_metrics_an.Reset.Text.{Unicode}
use study_project_metrics_an.Reset.Generate.{
  StructInfo, Package, DirError, generate_source, write_source, process_structs, process_packages,
  annotated_structs, process_dir,
}
use study_project_metrics_an.Reset.Walk.{Dir, visited}

-- os.Args without the name of the program.
abbrev pub root : List String → String
root [] = "."
root (path ∷ args) = path

-- filepath.Join of a path that filepath.Clean leaves as it is, and a name with no separator.
unfoldable pub join : String → String → String
join path name =
    if path == "."
    then name
    else if path == "/"
    then String.◌++◌ "/" name
    else String.◌++◌ path (String.◌++◌ "/" name)

-- The path of a directory, by the names from the root to it, as filepath.Walk gives it.
unfoldable pub dir_path : String → List String → String
dir_path path [] = path
dir_path path (name ∷ names) = dir_path (join path name) names

abbrev pub out_path : String → List String → String
out_path path names = join (dir_path path names) "reset.gen.go"

-- What a directory, by its path, is for the generator: what ParseDir returns of it, and whether the
-- file in it can be written.
pub record Sources : Type 0 where
  pub parse_dir : String → Option (List Package)
  pub write_fails : String → Bool

module _ (unicode : Unicode) (format : String → Option Bytes) (sources : Sources)
    (from : String) where
  abbrev pub process : List String → Disk → Disk × Option DirError
  process path disk =
      process_dir unicode format (out_path from path) (sources.write_fails (dir_path from path))
        (sources.parse_dir (dir_path from path)) disk

  unfoldable pub process_all : List (List String) → Disk → Disk × Option DirError
  process_all [] disk = (disk, none)
  process_all (path ∷ paths) disk =
      let (disk', err) = process path disk in
      let rest = process_all paths disk' in elim err [ some e ↦ (disk', some e) | none ↦ rest ]

  abbrev pub status : Option DirError → ℕ
  status none = 0
  status (some e) = 1

  -- The disk that main leaves, and the status that it exits with: 1 after log.Fatal.
  unfoldable pub main : Dir → Disk → Disk × ℕ
  unfolding process_all
  main tree disk = let (disk', err) = process_all (visited tree) disk in (disk', status err)

  module _ (f : String) where
    lookup-write_source :
        (out : String) (fails : Bool) (src : Option Bytes) (disk : Disk)
        → f ≢ out
        → lookup f (write_source out fails src disk).0 ≡ lookup f disk
    lookup-write_source out fails none disk ne = refl
    lookup-write_source out true (some src) disk ne = refl
    lookup-write_source out false (some src) disk ne =
        lookup-insert out f src disk ∙ ground (arith, eq_iff out f, ne)

    lookup-process_structs :
        (out : String) (fails : Bool) (pkg : String) (structs : List StructInfo) (disk : Disk)
        → f ≢ out
        → lookup f (process_structs unicode format out fails pkg structs disk).0 ≡ lookup f disk
    lookup-process_structs out fails pkg [] disk ne = refl
    lookup-process_structs out fails pkg (s ∷ structs) disk ne =
        lookup-write_source out fails (generate_source unicode format pkg (s ∷ structs)) disk ne

    lookup-process_packages :
        (out : String) (fails : Bool) (pkgs : List Package) (disk : Disk)
        → f ≢ out
        → lookup f (process_packages unicode format out fails pkgs disk).0 ≡ lookup f disk
    unfolding process_packages
    lookup-process_packages out fails [] disk ne = refl
    lookup-process_packages out fails (p ∷ pkgs) disk ne =
        let one =
          process_structs unicode format out fails p.name (annotated_structs p.decls) disk in
        ground (
          arith,
          lookup-process_structs out fails p.name (annotated_structs p.decls) disk ne,
          lookup-process_packages out fails pkgs one.0 ne,
        )

    lookup-process_dir :
        (out : String) (fails : Bool) (parsed : Option (List Package)) (disk : Disk)
        → f ≢ out
        → lookup f (process_dir unicode format out fails parsed disk).0 ≡ lookup f disk
    unfolding process_dir
    lookup-process_dir out fails none disk ne = refl
    lookup-process_dir out fails (some pkgs) disk ne =
        lookup-process_packages out fails pkgs disk ne

    lookup-process_all :
        (paths : List (List String)) (disk : Disk)
        → ((path : List String) → Memᴰ path paths → f ≢ out_path from path)
        → lookup f (process_all paths disk).0 ≡ lookup f disk
    unfolding process_all
    lookup-process_all [] disk other = refl
    lookup-process_all (path ∷ paths) disk other = ground (
      arith,
      lookup-process_dir (out_path from path) (sources.write_fails (dir_path from path))
          (sources.parse_dir (dir_path from path)) disk (other path (head refl)),
      lookup-process_all paths (process path disk).0 (λ p m. other p (tail m)),
    )

    -- Whatever it meets, an error included, the generator changes no file but those whose path is that
    -- of a directory that it visits, joined with reset.gen.go; the directories hang from the path that
    -- the walk starts from.
    pub lookup-main :
        (tree : Dir) (disk : Disk)
        → ((path : List String) → Memᴰ path (visited tree) → f ≢ out_path from path)
        → lookup f (main tree disk).0 ≡ lookup f disk
    unfolding main
    lookup-main tree disk other = lookup-process_all (visited tree) disk other
