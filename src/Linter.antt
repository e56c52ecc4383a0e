-- ===== src/Linter.antt =====
-- cmd/linter/analyzer: the two checks of the project's linter. What the inspector and the types of
-- go/analysis give is the input: the declarations of the files, each with the calls in it in preorder.
pub mod Reports
pub mod Exit
mod Tests
use study_project_metrics_an.Base.{
  ℕ, String, Bool, true, false, not, ◌&&◌, ◌||◌, Option, none, some, List, [], ◌∷◌, ◌++◌, ◌==◌, leb,
  if◌then◌else◌,
}
use study_project_metrics_an.Base.Assoc.{Assoc, lookup}

-- What an identifier stands for: an imported package by its path, or something else; none is an
-- identifier that Uses does not have.
pub data Object : Type 0 where
  pkg_name : String → Object
  other_object : Object

-- What is called: an identifier, a name selected from an identifier, or any other expression.
pub data Callee : Type 0 where
  ident : String → Callee
  selected : String → Option Object → String → Callee
  other_callee : Callee

pub record CallExpr : Type 0 where
  pub pos : ℕ
  pub callee : Callee

-- The positions of the braces.
pub record BlockStmt : Type 0 where
  pub lbrace : ℕ
  pub rbrace : ℕ

-- A declaration: a function with its name, whether it has a receiver and its body, or another one.
pub data Form : Type 0 where
  func_decl : String → Bool → Option BlockStmt → Form
  other_decl : Form

pub record Decl : Type 0 where
  pub form : Form
  pub calls : List CallExpr

pub record Package : Type 0 where
  pub name : String
  pub decls : List Decl

pub data Diagnostic : Type 0 where
  forbidden : ℕ → String → String → Diagnostic
  panics : ℕ → Diagnostic

abbrev pub forbidden_calls : Assoc (List String)
forbidden_calls = ("os", "Exit" ∷ []) ∷ ("log", "Fatal" ∷ "Fatalf" ∷ "Fatalln" ∷ []) ∷ []

abbrev pub is_main : Form → Bool
is_main (func_decl name recv body) = name == "main" && not recv
is_main other_decl = false

abbrev pub body_of : Form → Option BlockStmt
body_of (func_decl name recv body) = body
body_of other_decl = none

-- The last main function that the walk meets.
unfoldable pub main_func_body : List Decl → Option BlockStmt → Option BlockStmt
main_func_body [] found = found
main_func_body (d ∷ decls) found =
    main_func_body decls (if is_main d.form then body_of d.form else found)

-- nodeInBlock
unfoldable pub node_in_block : ℕ → BlockStmt → Bool
node_in_block pos b = leb b.lbrace pos && leb pos b.rbrace

abbrev pub allowed : Option BlockStmt → ℕ → Bool
allowed none pos = false
allowed (some b) pos = node_in_block pos b

-- The loop over the names; a name that is found does not end it.
unfoldable pub check_names : Bool → ℕ → String → String → List String → List Diagnostic
check_names is_allowed pos local sel [] = []
check_names is_allowed pos local sel (name ∷ names) =
    let rest = check_names is_allowed pos local sel names in
    if sel == name then (if is_allowed then [] else forbidden pos local sel ∷ rest) else rest

abbrev pub names_of : Option Object → List String
names_of (some (pkg_name path)) = elim (lookup path forbidden_calls) [ none ↦ [] | some ns ↦ ns ]
names_of _ = []

unfoldable pub check_call : Option BlockStmt → CallExpr → List Diagnostic
unfolding check_names node_in_block
check_call body call = elim call.callee [
  | selected local object sel ↦
      check_names (allowed body call.pos) call.pos local sel (names_of object)
  | _ ↦ []
]

abbrev pub check_calls : Option BlockStmt → List CallExpr → List Diagnostic
check_calls body [] = []
check_calls body (c ∷ calls) = check_call body c ++ check_calls body calls

unfoldable pub check_decls : Option BlockStmt → List Decl → List Diagnostic
unfolding check_call
check_decls body [] = []
check_decls body (d ∷ decls) = check_calls body d.calls ++ check_decls body decls

unfoldable pub run_exit_check : Package → List Diagnostic
unfolding main_func_body check_decls
run_exit_check p =
    if p.name == "main" then check_decls (main_func_body p.decls none) p.decls else []

unfoldable pub panic_call : CallExpr → List Diagnostic
panic_call call = elim call.callee [
  | ident name ↦ if name == "panic" then panics call.pos ∷ [] else []
  | _ ↦ []
]

abbrev pub panic_calls : List CallExpr → List Diagnostic
panic_calls [] = []
panic_calls (c ∷ calls) = panic_call c ++ panic_calls calls

unfoldable pub run_panic_check : List Decl → List Diagnostic
unfolding panic_call
run_panic_check [] = []
run_panic_check (d ∷ decls) = panic_calls d.calls ++ run_panic_check decls
