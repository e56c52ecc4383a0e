-- ===== src/Logger/Tests.antt =====
-- Lines of the log for some handlers.
use study_project_metrics_an.Base.{ℕ, suc, ◌≡◌, refl, true, some, none, [], ◌∷◌, arith}
use study_project_metrics_an.Http.{Request, new_response}
use study_project_metrics_an.Wire.{whole}
use study_project_metrics_an.Middleware.{set, status, body, Serve, replay}
use study_project_metrics_an.Logger.{ResponseLogger, seen, new_response_logger, log_middleware}
use study_project_metrics_an.Logger.Init.{fresh, unix, to_file, log_file, init_all}
use study_project_metrics_an.Logger.Sent.{IsLogged, log_middleware-IsLogged}

abbrev plain : Request
plain = record {
  header = [];
  body = whole [];
  remote_addr = "10.0.0.1:80";
  url_params = [];
  now = 1700000000;
}

abbrev teapot : Serve ℕ
teapot r n =
    (suc n, set "Content-Type" "text/plain" ∷ status 418 ∷ body (1 ∷ 2 ∷ []) ∷ body (3 ∷ []) ∷ [])

teapot_logged : log_middleware teapot plain (0, []) ≡ (
  (1, record { status_code = 418; size = 3 } ∷ []),
  set "Content-Type" "text/plain" ∷ status 418 ∷ body (1 ∷ 2 ∷ []) ∷ body (3 ∷ []) ∷ [],
)
unfolding log_middleware
teapot_logged = refl

implicit_ok : seen (body (1 ∷ []) ∷ []) new_response_logger ≡ record { status_code = 200; size = 1 }
unfolding seen
implicit_ok = refl

nothing_sent : seen [] new_response_logger ≡ record { status_code = 0; size = 0 }
unfolding seen
nothing_sent = refl

-- 418 and three bytes are what the client gets.
teapot_sent :
    (line : ResponseLogger) × (log_middleware teapot plain (0, [])
      ≡ ((1, line ∷ []), (teapot plain 0).1))
    × IsLogged line (replay (teapot plain 0).1 new_response)
teapot_sent = log_middleware-IsLogged teapot plain 0 [] (refl, omega arith, tt)

-- Two calls of Init, of which the first finds that the directory cannot be made.
twice : init_all (some "no space" ∷ none ∷ []) fresh ≡ record {
  once = true;
  logger = to_file log_file;
  time_field_format = unix;
  stderr = "Failed to create logs directory: no space\n";
  messages = "Logger initialized and writing to logs/app.log" ∷ [];
}
unfolding init_all
twice = refl
