-- ===== src/Reset/Tests.antt =====
-- The generator on audit.Event, and on a tree of directories.
use study_project_metrics_an.Base.{
  ℕ, String, ◌≡◌, ◌≢◌, refl, true, arith, eq_iff, false, Option, none, some, List, [], ◌∷◌, All,
  if◌then◌else◌, ◌==◌,
}
use study_project_metrics_an.Base.Assoc.{Assoc, insert, lookup}
use mathlib.Core.List.{Memᴰ}
use mathlib.Core.List.Memᴰ.{head, tail}
use study_project_metrics_an.Wire.{Bytes}
use study_project_metrics_an.Persist.{Disk}
use study_project_metrics_an.Reset.Generated.{event_fields, reset}
use study_project_metrics_an.Reset.Main.{root, join, dir_path, out_path, Sources, main, lookup-main}
use study_project_metrics_an.Config.{behind}
use study_project_metrics_an.Reset.Text.{trim_space, Unicode}
use study_project_metrics_an.Reset.{
  Expr, ident, selector, star, primitive_zero, reset_ref, reset_line, field_names,
  embedded_type_name, has_annotation, has_reset_annotation,
}
use study_project_metrics_an.Reset.Generate.{
  struct_type, type_decl, other_decl, annotated_structs, name_lines, Package, generate_source,
  process_packages, process_dir, field_lines,
}
use study_project_metrics_an.Reset.Walk.{
  Dirs, dir, no_dirs, more, is_skipped, visited, below, all_below, IsWalked,
}
use study_project_metrics_an.Reset.Values.{num, pointer, object, kind}
use study_project_metrics_an.Reset.Method.{declared, printed, field_lines-printed, StructValue}

event_lines :
    field_lines "e" event_fields
    ≡ "e.TS = 0" ∷ "e.Metrics = e.Metrics[:0]" ∷ "e.IPAddress = \"\"" ∷ []
unfolding field_lines name_lines field_names reset_line reset_ref primitive_zero lookup
event_lines = refl

field_lines-printed_example : field_lines "e" event_fields ≡ printed "e" (declared event_fields)
field_lines-printed_example = field_lines-printed "e" event_fields

-- The comment above Event, and one that is not the annotation.
event_found :
    annotated_structs (
      type_decl
        (some ("// generate:reset" ∷ "// Event is" ∷ []))
        (struct_type "Event" none event_fields ∷ [])
      ∷ other_decl
      ∷ type_decl (some ("// generate" ∷ [])) (struct_type "Subject" none [] ∷ [])
      ∷ [])
    ≡ record { name = "Event"; fields = event_fields } ∷ []
unfolding annotated_structs has_reset_annotation has_annotation behind trim_space
event_found = refl

-- A receiver that is embedded.
embedded_name :
    field_names (record { names = []; typ = star (selector "audit" "Event") }) ≡ "Event" ∷ []
unfolding field_names embedded_type_name
embedded_name = refl

-- A named type without a method is left as it is, though the comment above the method says that all
-- fields are reset.
abbrev no_methods : String → Option (ℕ → ℕ)
no_methods name = none

abbrev pair : Assoc Expr
pair = ("n", star (ident "int")) ∷ ("t", ident "MetricType") ∷ []

abbrev pair_value : StructValue
pair_value name = if name == "n" then pointer (num 7) else object "MetricType" 3

type_kind : kind "MetricType" ≡ none
unfolding kind lookup
type_kind = refl

-- A repository with a vendor directory and one that is hidden.
abbrev tree : Dirs
tree = more (dir ".git" (more (dir "hooks" no_dirs) no_dirs)) (
    more (dir "internal" (more (dir "audit" no_dirs) no_dirs))
      (more (dir "vendor" no_dirs) no_dirs))

visited-tree : visited (dir "repo" tree) ≡ [] ∷ ("internal" ∷ []) ∷ ("internal" ∷ "audit" ∷ []) ∷ []
unfolding visited below all_below is_skipped
visited-tree = refl

walked : All IsWalked ("vendors" ∷ [])
unfolding is_skipped
walked = (refl, tt)

-- The generator in that repository, where the audit package has the annotated struct.
abbrev audit_package : Package
audit_package = record {
  name = "audit";
  decls =
      type_decl (some ("// generate:reset" ∷ [])) (struct_type "Event" none event_fields ∷ []) ∷ [];
}

abbrev sources : Sources
sources = record {
  parse_dir = λ path. some (if path == "internal/audit" then audit_package ∷ [] else []);
  write_fails = λ path. false;
}

abbrev ascii : Unicode
ascii = record { is_letter = λ c. true; to_lower = λ c. c }

abbrev formatted : String → Option Bytes
formatted t = some (1 ∷ [])

not_listed :
    (path : List String)
    → Memᴰ path ([] ∷ ("internal" ∷ []) ∷ ("internal" ∷ "audit" ∷ []) ∷ [])
    → "go.mod" ≢ out_path "." path
unfolding dir_path join
not_listed path (head e) = rw e (λ q. ground (arith, eq_iff "go.mod" "reset.gen.go"))
not_listed path (tail (head e)) =
    rw e (λ q. ground (arith, eq_iff "go.mod" "internal/reset.gen.go"))
not_listed path (tail (tail (head e))) =
    rw e (λ q. ground (arith, eq_iff "go.mod" "internal/audit/reset.gen.go"))
not_listed path (tail (tail (tail m))) = elim m [ ]

not_out :
    (path : List String)
    → Memᴰ path (visited (dir "repo" tree))
    → "go.mod" ≢ out_path (root []) path
not_out path m = not_listed path (rw visited-tree at m)

abbrev disk : Disk
disk = ("go.mod", 9 ∷ []) ∷ []

lookup-main_example :
    lookup "go.mod" (main ascii formatted sources (root []) (dir "repo" tree) disk).0
    ≡ lookup "go.mod" disk
lookup-main_example =
    lookup-main ascii formatted sources (root []) "go.mod" (dir "repo" tree) disk not_out

-- One file is written, and the status is 0.
generated :
    main ascii formatted sources (root []) (dir "repo" tree) disk
    ≡ (("go.mod", 9 ∷ []) ∷ ("internal/audit/reset.gen.go", 1 ∷ []) ∷ [], 0)
unfolding main join dir_path visited below all_below is_skipped process_dir process_packages
    annotated_structs has_reset_annotation has_annotation behind trim_space generate_source insert
generated = refl

-- The method of the repository on an event.
event_reset :
    reset (some (record { ts = 5; metrics = "a" ∷ []; ip_address = "::1" }))
    ≡ some (record { ts = 0; metrics = []; ip_address = "" })
unfolding reset
event_reset = refl
