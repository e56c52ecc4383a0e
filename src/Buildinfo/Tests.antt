-- ===== src/Buildinfo/Tests.antt =====
-- The output of a server that was built without flags and ends well, or with an error.
use study_project_metrics_an.Base.{ℕ, ◌≡◌, refl, none, some}
use study_project_metrics_an.Buildinfo.{build_version, build_date, build_commit, main}

plain :
    main {E = ℕ} build_version build_date build_commit none
    ≡ ("Build version: N/A\nBuild date: N/A\nBuild commit: N/A\n", 0)
unfolding main
plain = refl

failed : (main {E = ℕ} "1.2" "today" "abc" (some 3)).1 ≡ 1
unfolding main
failed = refl
