-- ===== src/Linter/Exit.antt =====
-- The check by positions is the check by structure.
use study_project_metrics_an.Base.{
  ℕ, String, ◌≡◌, refl, sym, ◌∙◌, ap, true, false, Option, none, some, List, [], ◌∷◌, ◌++◌,
  if◌then◌else◌, All, arith, append_assoc, ◌≢◌, eq-false_of_ne,
}
use study_project_metrics_an.Linter.{
  Callee, ident, selected, other_callee, CallExpr, BlockStmt, Decl, is_main, body_of,
  main_func_body, node_in_block, check_names, names_of, check_call, check_calls, check_decls,
  run_exit_check,
}
use study_project_metrics_an.Linter.Reports.{all_reports, check_decls-all_reports}

abbrev pub IsMain : Decl → Type 0
IsMain d = is_main d.form ≡ true

abbrev pub IsNotMain : Decl → Type 0
IsNotMain d = is_main d.form ≡ false

-- Where the calls of a declaration stand against a block.
abbrev pub IsOutside : BlockStmt → CallExpr → Type 0
IsOutside b c = node_in_block c.pos b ≡ false

abbrev pub IsInside : BlockStmt → CallExpr → Type 0
IsInside b c = node_in_block c.pos b ≡ true

abbrev pub AllOutside : BlockStmt → Decl → Type 0
AllOutside b d = All (IsOutside b) d.calls

main_func_body-none :
    (decls : List Decl) (found : Option BlockStmt)
    → All IsNotMain decls
    → main_func_body decls found ≡ found
unfolding main_func_body
main_func_body-none [] found h = refl
main_func_body-none (d ∷ decls) found (n, h) = rw n (main_func_body-none decls found h)

main_func_body-main_first :
    (decls : List Decl) (m : Decl) (found : Option BlockStmt)
    → IsMain m
    → main_func_body (m ∷ decls) found ≡ main_func_body decls (body_of m.form)
unfolding main_func_body
main_func_body-main_first decls m found e =
    ap (λ b. main_func_body decls (if b then body_of m.form else found)) e

main_func_body-other :
    (decls : List Decl) (d : Decl) (found : Option BlockStmt)
    → IsNotMain d
    → main_func_body (d ∷ decls) found ≡ main_func_body decls found
unfolding main_func_body
main_func_body-other decls d found e =
    ap (λ b. main_func_body decls (if b then body_of d.form else found)) e

main_func_body-main :
    (before after : List Decl) (m : Decl) (found : Option BlockStmt)
    → All IsNotMain before
    → All IsNotMain after
    → IsMain m
    → main_func_body (before ++ m ∷ after) found ≡ body_of m.form
unfolding main_func_body
main_func_body-main [] after m found n n' e =
    main_func_body-main_first after m found e ∙ main_func_body-none after (body_of m.form) n'
main_func_body-main (d ∷ before) after m found (n, h) n' e =
    main_func_body-other (before ++ m ∷ after) d found n
    ∙ main_func_body-main before after m found h n' e

check_names-allowed :
    (pos : ℕ) (local sel : String) (names : List String) → check_names true pos local sel names ≡ []
unfolding check_names
check_names-allowed pos local sel [] = refl
check_names-allowed pos local sel (name ∷ names) =
    ground (arith, check_names-allowed pos local sel names)

-- The check of a call depends on the block only by where the call stands.
check_call-outside :
    (b : BlockStmt) (pos : ℕ) (callee : Callee)
    → node_in_block pos b ≡ false
    → check_call (some b) (record { pos = pos; callee = callee })
      ≡ check_call none (record { pos = pos; callee = callee })
unfolding check_call
check_call-outside b pos (ident name) h = refl
check_call-outside b pos other_callee h = refl
check_call-outside b pos (selected local object sel) h =
    ap (λ a. check_names a pos local sel (names_of object)) h

check_call-inside :
    (b : BlockStmt) (pos : ℕ) (callee : Callee)
    → node_in_block pos b ≡ true
    → check_call (some b) (record { pos = pos; callee = callee }) ≡ []
unfolding check_call
check_call-inside b pos (ident name) h = refl
check_call-inside b pos other_callee h = refl
check_call-inside b pos (selected local object sel) h =
    rw h (check_names-allowed pos local sel (names_of object))

check_calls-outside :
    (b : BlockStmt) (calls : List CallExpr)
    → All (IsOutside b) calls
    → check_calls (some b) calls ≡ check_calls none calls
check_calls-outside b [] h = refl
check_calls-outside b (c ∷ calls) (o, h) =
    rw (check_call-outside b c.pos c.callee o, check_calls-outside b calls h) refl

check_calls-inside :
    (b : BlockStmt) (calls : List CallExpr)
    → All (IsInside b) calls
    → check_calls (some b) calls ≡ []
check_calls-inside b [] h = refl
check_calls-inside b (c ∷ calls) (i, h) =
    rw (check_call-inside b c.pos c.callee i, check_calls-inside b calls h) refl

check_decls-outside :
    (b : BlockStmt) (decls : List Decl)
    → All (AllOutside b) decls
    → check_decls (some b) decls ≡ check_decls none decls
unfolding check_decls
check_decls-outside b [] h = refl
check_decls-outside b (d ∷ decls) (o, h) =
    rw (check_calls-outside b d.calls o, check_decls-outside b decls h) refl

check_decls-append :
    (body : Option BlockStmt) (xs ys : List Decl)
    → check_decls body (xs ++ ys) ≡ check_decls body xs ++ check_decls body ys
unfolding check_decls
check_decls-append body [] ys = refl
check_decls-append body (d ∷ xs) ys =
    rw (check_decls-append body xs ys) (sym (append_assoc (check_calls body d.calls) _ _))

-- Outside of main.main, and only there: in a main package with one function main whose body contains
-- the positions of its calls and of no other, the check reports, in their order, the calls of os.Exit,
-- log.Fatal, log.Fatalf and log.Fatalln whose function is, without parentheses, a selector on the name
-- of the package, whatever name it is imported by, in the declarations before main and in those behind
-- it, and no other call; so not those of a dot import.
pub run_exit_check-main :
    (before after : List Decl) (m : Decl) (b : BlockStmt)
    → All IsNotMain before
    → All IsNotMain after
    → IsMain m
    → body_of m.form ≡ some b
    → All (AllOutside b) before
    → All (AllOutside b) after
    → All (IsInside b) m.calls
    → run_exit_check (record { name = "main"; decls = before ++ m ∷ after })
      ≡ all_reports before ++ all_reports after
unfolding run_exit_check check_decls
run_exit_check-main before after m b n n' e body o o' i =
    rw
      (
        main_func_body-main before after m none n n' e,
        body,
        check_decls-append (some b) before (m ∷ after),
        check_decls-outside b before o,
        check_decls-all_reports before,
      )
      (rw
        (
          check_calls-inside b m.calls i,
          check_decls-outside b after o',
          check_decls-all_reports after,
        )
        refl)

-- The check does nothing in a package that is not main: no call of os.Exit or log.Fatal in a library
-- package is reported.
pub run_exit_check-library :
    (name : String) (decls : List Decl)
    → name ≢ "main"
    → run_exit_check (record { name = name; decls = decls }) ≡ []
unfolding run_exit_check
run_exit_check-library name decls ne = rw (eq-false_of_ne name "main" ne) refl
