-- ===== src/Middleware/Tests.antt =====
-- The middlewares on concrete requests and calls.
use study_project_metrics_an.Base.{
  ℕ, suc, length, String, ◌≡◌, ◌⊎◌, refl, Bool, true, false, some, List, [], ◌∷◌, ◌==◌,
}
use study_project_metrics_an.Wire.{Bytes, whole}
use study_project_metrics_an.Base.Assoc.{lookup, insert}
use study_project_metrics_an.Http.{get_header, Request, new_response}
use study_project_metrics_an.Middleware.{
  Call, Serve, logging_middleware, set, status, body, replay, wrapped, call, close, start,
  should_gzip, new_writer, chain, decrypt_middleware, trusted_subnet_middleware, gzip_middleware,
  sha256_check_middleware,
}
use study_project_metrics_an.Middleware.Compressed.{
  IsEncoded, written, status_at_write, replay-wrapped,
}
use study_project_metrics_an.Middleware.Guard.{IsInside, IsHashed, chain-admits}
use study_project_metrics_an.Middleware.Logging.{logging_middleware-sent}
use study_project_metrics_an.Fixtures.{toy_gzip}
use study_project_metrics_an.Middleware.Toy.{server, collect}

abbrev json_calls : List Call
json_calls =
    set "Content-Type" "application/json" ∷ status 201 ∷ body (1 ∷ 2 ∷ []) ∷ body (3 ∷ []) ∷ []

abbrev mark : Bytes → Bytes
mark b = 31 ∷ b

abbrev same : String → String → Bool
same part t = part == t

replay-wrapped_example :
    IsEncoded mark true
      (written json_calls)
      (replay (wrapped mark same true json_calls (new_writer [])) new_response).body
    × ((replay (wrapped mark same true json_calls (new_writer [])) new_response).status
        ≡ some (status_at_write json_calls 200))
replay-wrapped_example = replay-wrapped mark same true json_calls

-- A handler that makes these calls and counts them.
abbrev toy_next : Serve ℕ
toy_next r n = (suc n, json_calls)

abbrev toy_request : Request
toy_request = record {
  header = ("Accept-Encoding", "gzip") ∷ [];
  body = whole [];
  remote_addr = "10.0.0.1:80";
  url_params = [];
  now = 1700000000;
}

not_encoded : (get_header "Content-Encoding" toy_request.header == "gzip") ≡ false
unfolding get_header lookup
not_encoded = refl

logging_middleware-sent_example :
    (line : ℕ × ℕ) × (logging_middleware
        (gzip_middleware toy_gzip same toy_next)
        toy_request
        (0, [])
      ≡ ((1, line ∷ []), (gzip_middleware toy_gzip same toy_next toy_request 0).1))
    × ((replay (gzip_middleware toy_gzip same toy_next toy_request 0).1 new_response).status
        ≡ some line.0)
    × (line.1
        ≡ length
            (replay (gzip_middleware toy_gzip same toy_next toy_request 0).1 new_response).body)
logging_middleware-sent_example =
    logging_middleware-sent toy_gzip same toy_next toy_request 0 [] not_encoded

wrapped-json :
    wrapped mark same true json_calls (new_writer [])
    ≡ set "Content-Type" "application/json"
      ∷ set "Content-Encoding" "gzip"
      ∷ status 201
      ∷ body (31 ∷ 1 ∷ 2 ∷ 3 ∷ [])
      ∷ []
unfolding wrapped call close start should_gzip get_header lookup insert
wrapped-json = refl

abbrev signed_request : Request
signed_request = record {
  header = ("X-Real-IP", "10.0.0.1") ∷ ("HashSHA256", "signed") ∷ [];
  body = whole (1 ∷ 2 ∷ []);
  remote_addr = "10.0.0.1:80";
  url_params = [];
  now = 0;
}

chain-admits_example :
    ((chain server collect signed_request []).0 ≡ [])
    ⊎ (IsInside server collect 0 signed_request
        × IsHashed server collect signed_request [] (chain server collect signed_request []).0)
chain-admits_example = chain-admits server collect 0 signed_request [] refl refl

let_through : (chain server collect signed_request []).0 ≡ 1 ∷ 2 ∷ []
unfolding chain decrypt_middleware trusted_subnet_middleware gzip_middleware sha256_check_middleware
    get_header lookup
let_through = refl

-- Without the hash the request is refused.
kept_out :
    (chain server collect (record signed_request { header = ("X-Real-IP", "10.0.0.1") ∷ [] }) []).0
    ≡ []
unfolding chain decrypt_middleware trusted_subnet_middleware gzip_middleware sha256_check_middleware
    get_header lookup
kept_out = refl
