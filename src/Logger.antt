-- ===== src/Logger.antt =====
-- internal/logger/logging.go: the middleware that logs requests, with its response writer. Of a line of the
-- log the model has the status and the size; the method, the address and the duration do not depend on the
-- handler.
pub mod Sent
pub mod Init
mod Tests
use study_project_metrics_an.Base.{ℕ, ◌+◌, List, [], ◌∷◌, ◌++◌, length, eqb, if◌then◌else◌}
use study_project_metrics_an.Middleware.{Call, set, status, body, Serve}

pub record ResponseLogger : Type 0 where
  pub status_code : ℕ
  pub size : ℕ

abbrev pub new_response_logger : ResponseLogger
new_response_logger = record { status_code = 0; size = 0 }

abbrev pub write_header : ℕ → ResponseLogger → ResponseLogger
write_header code rl = record rl { status_code = code }

-- A writer below that takes all the bytes.
abbrev pub write : List ℕ → ResponseLogger → ResponseLogger
write b rl = record {
  status_code = if eqb rl.status_code 0 then 200 else rl.status_code;
  size = rl.size + length b;
}

unfoldable pub seen : List Call → ResponseLogger → ResponseLogger
seen [] rl = rl
seen (set name value ∷ calls) rl = seen calls rl
seen (status code ∷ calls) rl = seen calls (write_header code rl)
seen (body b ∷ calls) rl = seen calls (write b rl)

-- The state is that of the handler, with the lines of the log.
unfoldable pub log_middleware : {W : Type 0} → Serve W → Serve (W × List ResponseLogger)
unfolding seen
log_middleware next r (world, lines) =
    let (after, calls) = next r world in
    ((after, lines ++ (seen calls new_response_logger ∷ [])), calls)
