-- ===== src/Http.antt =====
-- What the program uses of net/http: headers, requests, response writers and http.Error.
use study_project_metrics_an.Base.{ℕ, String, Option, none, some, ◌++◌, []}
use study_project_metrics_an.Base.Int64.{Int64}
use study_project_metrics_an.Base.Assoc.{Assoc, lookup, insert}
use study_project_metrics_an.Wire.{Bytes, Body, text}

-- One value for each canonical name.
abbrev pub Header : Type 0
Header = Assoc String

abbrev text_or_empty : Option String → String
text_or_empty none = ""
text_or_empty (some v) = v

-- `Header.Get`, which returns "" where the header is missing.
unfoldable pub get_header : String → Header → String
get_header name h = text_or_empty (lookup name h)

-- `url_params` are those that the router has taken from the path, `now` is the time of the request.
pub record Request : Type 0 where
  pub header : Header
  pub body : Body
  pub remote_addr : String
  pub url_params : Assoc String
  pub now : Int64

-- `status` is none until WriteHeader or Write is called.
pub record Response : Type 0 where
  pub header : Header
  pub status : Option ℕ
  pub body : Bytes

abbrev pub new_response : Response
new_response = record { header = []; status = none; body = [] }

abbrev pub set_header : String → String → Response → Response
set_header name value w = record w { header = insert name value w.header }

-- Only the first call of WriteHeader counts.
abbrev pub first_status : Option ℕ → ℕ → Option ℕ
first_status none code = some code
first_status (some old) code = some old

abbrev pub write_header : ℕ → Response → Response
write_header code w = record w { status = first_status w.status code }

-- A write with no status yet sends 200. A status that allows no body, such as 204, is not looked at: no
-- handler of the program sends one.
abbrev pub write : Bytes → Response → Response
write b w = record w { status = first_status w.status 200; body = w.body ++ b }

-- http.Error
abbrev pub http_error : String → ℕ → Response → Response
http_error message code w = write (text message ++ text "\n") (
    write_header code (
      set_header "X-Content-Type-Options" "nosniff"
        (set_header "Content-Type" "text/plain; charset=utf-8" w)))
