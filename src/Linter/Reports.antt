-- ===== src/Linter/Reports.antt =====
-- What the check reports of declarations, against a description of the calls that it is about.
use study_project_metrics_an.Base.{
  ℕ, String, ◌≡◌, refl, inl, inr, Bool, false, Option, none, some, List, [], ◌∷◌, ◌++◌, ◌==◌,
  if◌then◌else◌, arith, Bool-cases, ◌&&◌, ◌||◌, eq_iff,
}
use study_project_metrics_an.Base.Assoc.{lookup}
use study_project_metrics_an.Linter.{
  Object, pkg_name, other_object, Callee, ident, selected, other_callee, CallExpr, Decl, Diagnostic,
  forbidden, check_names, names_of, check_call, check_calls, check_decls,
}

-- The calls that the check is about, said of the source: os.Exit and the three of log.
abbrev pub is_forbidden : Option Object → String → Bool
is_forbidden (some (pkg_name path)) sel =
    path == "os" && sel == "Exit"
    || path == "log" && (sel == "Fatal" || sel == "Fatalf" || sel == "Fatalln")
is_forbidden _ sel = false

abbrev pub report : ℕ → Callee → List Diagnostic
report pos (selected local object sel) =
    if is_forbidden object sel then forbidden pos local sel ∷ [] else []
report pos (ident name) = []
report pos other_callee = []

abbrev pub reports : List CallExpr → List Diagnostic
reports [] = []
reports (c ∷ calls) = report c.pos c.callee ++ reports calls

abbrev pub all_reports : List Decl → List Diagnostic
all_reports [] = []
all_reports (d ∷ decls) = reports d.calls ++ all_reports decls

-- Each name matches once, as the names differ.
check_names-exit :
    (pos : ℕ) (local sel : String)
    → check_names false pos local sel ("Exit" ∷ [])
      ≡ report pos (selected local (some (pkg_name "os")) sel)
unfolding check_names
check_names-exit pos local sel = elim (Bool-cases (sel == "Exit")) [
  | inl e ↦ rw e refl
  | inr n ↦ rw n refl
]

check_names-fatal :
    (pos : ℕ) (local sel : String)
    → check_names false pos local sel ("Fatal" ∷ "Fatalf" ∷ "Fatalln" ∷ [])
      ≡ report pos (selected local (some (pkg_name "log")) sel)
unfolding check_names
check_names-fatal pos local sel = elim (Bool-cases (sel == "Fatal")) [
  | inl e ↦ rw ((eq_iff sel "Fatal").0 e) refl
  | inr n ↦ elim (Bool-cases (sel == "Fatalf")) [
    | inl e ↦ rw ((eq_iff sel "Fatalf").0 e) refl
    | inr n' ↦ elim (Bool-cases (sel == "Fatalln")) [
      | inl e ↦ rw ((eq_iff sel "Fatalln").0 e) refl
      | inr n'' ↦ rw (n, n', n'') refl
    ]
  ]
]

names_of-other :
    (path : String)
    → (path == "os") ≡ false
    → (path == "log") ≡ false
    → names_of (some (pkg_name path)) ≡ []
unfolding lookup
names_of-other path n n' =
    ground (arith, eq_iff path "os", eq_iff path "log", eq_iff "os" path, eq_iff "log" path)

check_call-selected :
    (pos : ℕ) (local path sel : String)
    → check_names false pos local sel (names_of (some (pkg_name path)))
      ≡ report pos (selected local (some (pkg_name path)) sel)
unfolding check_names lookup
check_call-selected pos local path sel = elim (Bool-cases (path == "os")) [
  | inl e ↦ rw ((eq_iff path "os").0 e) (check_names-exit pos local sel)
  | inr n ↦ elim (Bool-cases (path == "log")) [
    | inl e ↦ rw ((eq_iff path "log").0 e) (check_names-fatal pos local sel)
    | inr n' ↦ rw (names_of-other path n n', n, n') refl
  ]
]

check_call-report :
    (pos : ℕ) (callee : Callee)
    → check_call none (record { pos = pos; callee = callee }) ≡ report pos callee
unfolding check_call check_names
check_call-report pos (ident name) = refl
check_call-report pos other_callee = refl
check_call-report pos (selected local none sel) = refl
check_call-report pos (selected local (some other_object) sel) = refl
check_call-report pos (selected local (some (pkg_name path)) sel) =
    check_call-selected pos local path sel

check_calls-reports : (calls : List CallExpr) → check_calls none calls ≡ reports calls
check_calls-reports [] = refl
check_calls-reports (c ∷ calls) =
    rw (check_call-report c.pos c.callee, check_calls-reports calls) refl

pub check_decls-all_reports : (decls : List Decl) → check_decls none decls ≡ all_reports decls
unfolding check_decls
check_decls-all_reports [] = refl
check_decls-all_reports (d ∷ decls) =
    rw (check_calls-reports d.calls, check_decls-all_reports decls) refl
