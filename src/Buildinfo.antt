-- ===== src/Buildinfo.antt =====
-- internal/buildinfo/buildinfo.go, and main of cmd/server/main.go, which prints the build information first.
mod Tests
use Prim.Native.String
use study_project_metrics_an.Base.{ℕ, String, Option, none, some, List, [], ◌∷◌}
use study_project_metrics_an.Reset.Text.{concat}

-- Print, as the text that it writes.
unfoldable pub print : String → String → String → String
print version date commit = concat (
    "Build version: " ∷ version ∷ "\nBuild date: " ∷ date ∷ "\nBuild commit: " ∷ commit ∷ "\n" ∷ [])

-- The variables as they are declared; the linker can set others.
abbrev pub build_version : String
build_version = "N/A"

abbrev pub build_date : String
build_date = "N/A"

abbrev pub build_commit : String
build_commit = "N/A"

abbrev status : {E : Type 0} → Option E → ℕ
status none = 0
status (some e) = 1

-- The text that main prints and the status that it exits with, by the error of run(), if there is one;
-- log.Fatalf exits with 1.
unfoldable pub main : {E : Type 0} → String → String → String → Option E → String × ℕ
unfolding print
main version date commit err = (print version date commit, status err)
