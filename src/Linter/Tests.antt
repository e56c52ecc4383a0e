-- ===== src/Linter/Tests.antt =====
-- A main package with a call before, in and behind main, and a library package.
use study_project_metrics_an.Base.{ℕ, ◌≡◌, refl, true, false, some, [], ◌∷◌, All}
use study_project_metrics_an.Linter.{
  pkg_name, other_object, ident, selected, CallExpr, BlockStmt, func_decl, Decl, forbidden, panics,
  node_in_block, run_exit_check, run_panic_check, panic_call,
}
use study_project_metrics_an.Linter.Exit.{AllOutside, IsInside, run_exit_check-main}

abbrev exit_at : ℕ → CallExpr
exit_at pos = record { pos = pos; callee = selected "os" (some (pkg_name "os")) "Exit" }

-- An import of log by another name, and a variable that is called os.
abbrev helper : Decl
helper = record {
  form = func_decl "helper" false (some (record { lbrace = 10; rbrace = 30 }));
  calls =
      record { pos = 12; callee = selected "mylog" (some (pkg_name "log")) "Fatalf" }
      ∷ record { pos = 20; callee = selected "os" (some other_object) "Exit" }
      ∷ [];
}

abbrev body : BlockStmt
body = record { lbrace = 40; rbrace = 60 }

abbrev main_decl : Decl
main_decl = record { form = func_decl "main" false (some body); calls = exit_at 50 ∷ [] }

-- A method that is called main.
abbrev method : Decl
method = record {
  form = func_decl "main" true (some (record { lbrace = 70; rbrace = 90 }));
  calls = exit_at 80 ∷ record { pos = 85; callee = ident "panic" } ∷ [];
}

helper-AllOutside : AllOutside body helper
unfolding node_in_block
helper-AllOutside = (refl, (refl, tt))

method-AllOutside : AllOutside body method
unfolding node_in_block
method-AllOutside = (refl, (refl, tt))

main_decl-IsInside : All (IsInside body) main_decl.calls
unfolding node_in_block
main_decl-IsInside = (refl, tt)

run_exit_check-main_example :
    run_exit_check (record { name = "main"; decls = helper ∷ main_decl ∷ method ∷ [] })
    ≡ forbidden 12 "mylog" "Fatalf" ∷ forbidden 80 "os" "Exit" ∷ []
run_exit_check-main_example =
    run_exit_check-main (helper ∷ []) (method ∷ []) main_decl body (refl, tt) (refl, tt) refl refl
      (helper-AllOutside, tt) (method-AllOutside, tt) main_decl-IsInside

method_panics : run_panic_check (helper ∷ method ∷ []) ≡ panics 85 ∷ []
unfolding run_panic_check panic_call
method_panics = refl
