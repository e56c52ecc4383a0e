-- ===== src/Reset/Generate.antt =====
-- generateSource and processDir of cmd/reset/main.go: the structs that are collected, the text of the
-- template, and the file that is written.
use Prim.Native.String
use study_project_metrics_an.Base.{
  String, Bool, ◌||◌, Option, none, some, List, [], ◌∷◌, ◌++◌, map, ◌==◌, if◌then◌else◌,
}
use study_project_metrics_an.Base.Assoc.{insert}
use study_project_metrics_an.Wire.{Bytes}
use study_project_metrics_an.Persist.{Disk}
use study_project_metrics_an.Reset.Text.{concat, Unicode}
use study_project_metrics_an.Reset.{
  Expr, Field, field_names, Doc, has_reset_annotation, recv_name, reset_line,
}

pub record StructInfo : Type 0 where
  pub name : String
  pub fields : List Field

-- A specification in a declaration: that of a struct type, or any other.
pub data Spec : Type 0 where
  struct_type : String → Doc → List Field → Spec
  other_spec : Spec

pub data Decl : Type 0 where
  type_decl : Doc → List Spec → Decl
  other_decl : Decl

abbrev pub annotated_spec : Bool → Spec → List StructInfo
annotated_spec gd_annotated (struct_type name doc fields) =
    if gd_annotated || has_reset_annotation doc
    then record { name = name; fields = fields } ∷ []
    else []
annotated_spec gd_annotated other_spec = []

abbrev pub annotated_specs : Bool → List Spec → List StructInfo
annotated_specs gd_annotated [] = []
annotated_specs gd_annotated (s ∷ specs) =
    annotated_spec gd_annotated s ++ annotated_specs gd_annotated specs

abbrev pub annotated_decl : Decl → List StructInfo
annotated_decl (type_decl doc specs) = annotated_specs (has_reset_annotation doc) specs
annotated_decl other_decl = []

-- The structs of the declarations of a package, file after file in the order in which `range`
-- visits the files.
unfoldable pub annotated_structs : List Decl → List StructInfo
unfolding has_reset_annotation
annotated_structs [] = []
annotated_structs (d ∷ decls) = annotated_decl d ++ annotated_structs decls

pub record TmplStruct : Type 0 where
  pub name : String
  pub recv : String
  pub lines : List String

abbrev pub with_line : String → List String → List String
with_line line lines = if line == "" then lines else line ∷ lines

-- The lines for the names of one entry of the list of fields.
unfoldable pub name_lines : String → Expr → List String → List String → List String
unfolding reset_line
name_lines recv typ [] rest = rest
name_lines recv typ (name ∷ names) rest =
    with_line (reset_line recv name typ) (name_lines recv typ names rest)

unfoldable pub field_lines : String → List Field → List String
unfolding name_lines field_names
field_lines recv [] = []
field_lines recv (f ∷ fields) = name_lines recv f.typ (field_names f) (field_lines recv fields)

abbrev pub tmpl_struct : Unicode → StructInfo → TmplStruct
tmpl_struct unicode s = record {
  name = s.name;
  recv = recv_name unicode s.name;
  lines = field_lines (recv_name unicode s.name) s.fields;
}

abbrev pub line_texts : List String → String
line_texts [] = ""
line_texts (l ∷ lines) = concat (l ∷ "\n" ∷ line_texts lines ∷ [])

-- The part of the template that is repeated.
abbrev pub struct_text : TmplStruct → String
struct_text s = concat (
    "\n// Reset resets all fields of "
    ∷ s.name
    ∷ " to their zero values.\nfunc ("
    ∷ s.recv
    ∷ " *"
    ∷ s.name
    ∷ ") Reset() {\nif "
    ∷ s.recv
    ∷ " == nil {\nreturn\n}\n"
    ∷ line_texts s.lines
    ∷ "}\n"
    ∷ [])

abbrev pub struct_texts : List TmplStruct → String
struct_texts [] = ""
struct_texts (s ∷ structs) = String.◌++◌ (struct_text s) (struct_texts structs)

-- resetTmpl with its data.
abbrev pub reset_tmpl : String → List TmplStruct → String
reset_tmpl pkg structs = concat (
    "// Code generated by reset; DO NOT EDIT.\n\npackage " ∷ pkg ∷ "\n" ∷ struct_texts structs ∷ [])

-- `format` is format.Source.
unfoldable pub generate_source :
    Unicode → (String → Option Bytes) → String → List StructInfo → Option Bytes
unfolding field_lines
generate_source unicode format pkg_name structs =
    format (reset_tmpl pkg_name (map (tmpl_struct unicode) structs))

pub record Package : Type 0 where
  pub name : String
  pub decls : List Decl

pub data DirError : Type 0 where
  generate write : DirError

-- What becomes of a package with annotated structs; `out` is the file and `write_fails` says whether
-- it can be written.
abbrev pub write_source : String → Bool → Option Bytes → Disk → Disk × Option DirError
write_source out write_fails none disk = (disk, some generate)
write_source out write_fails (some src) disk =
    if write_fails then (disk, some write) else (insert out src disk, none)

abbrev pub process_structs :
    Unicode
    → (String → Option Bytes)
    → String
    → Bool
    → String
    → List StructInfo
    → Disk
    → Disk × Option DirError
process_structs unicode format out write_fails pkg_name [] disk = (disk, none)
process_structs unicode format out write_fails pkg_name (s ∷ structs) disk =
    write_source out write_fails (generate_source unicode format pkg_name (s ∷ structs)) disk

-- The loop over the packages of a directory, in the order in which `range` visits them.
unfoldable pub process_packages :
    Unicode → (String → Option Bytes) → String → Bool → List Package → Disk → Disk × Option DirError
unfolding annotated_structs generate_source
process_packages unicode format out write_fails [] disk = (disk, none)
process_packages unicode format out write_fails (p ∷ pkgs) disk =
    let (disk', err) =
      process_structs unicode format out write_fails p.name (annotated_structs p.decls) disk in
    let rest = process_packages unicode format out write_fails pkgs disk' in
    elim err [ some e ↦ (disk', some e) | none ↦ rest ]

-- What ParseDir returns of a directory, without the tests and the generated file; an error of it is
-- none here. `out` is the path of reset.gen.go in the directory.
unfoldable pub process_dir :
    Unicode
    → (String → Option Bytes)
    → String
    → Bool
    → Option (List Package)
    → Disk
    → Disk × Option DirError
unfolding process_packages
process_dir unicode format out write_fails none disk = (disk, none)
process_dir unicode format out write_fails (some pkgs) disk =
    process_packages unicode format out write_fails pkgs disk
