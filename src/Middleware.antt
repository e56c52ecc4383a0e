-- ===== src/Middleware.antt =====
-- internal/httpmw and the hash check of internal/handler/handlers.go: the middlewares in front of the
-- handlers, and the order in which cmd/server/main.go puts them. A handler here is seen through the
-- calls that it makes on its response writer, so that a middleware can stand between the two.
pub mod Compressed
pub mod Logging
pub mod Guard
pub mod Passage
pub mod Toy
mod Tests
use study_project_metrics_an.Base.{
  ℕ, String, Bool, true, false, Option, none, some, List, [], ◌∷◌, ◌++◌, ◌&&◌, ◌||◌, ◌==◌,
  if◌then◌else◌, ◌+◌, length,
}
use study_project_metrics_an.Base.Assoc.{insert, remove}
use study_project_metrics_an.Wire.{Bytes, Body, text, whole, read_all, Gzip, Mac}
use study_project_metrics_an.Http.{
  Header, get_header, Request, Response, set_header, write_header, write,
}
use study_project_metrics_an.Crypto.{Cipher, Result, ok, err, decrypt}

-- A call on an http.ResponseWriter: `Header().Set`, `WriteHeader` or `Write`.
pub data Call : Type 0 where
  set : String → String → Call
  status : ℕ → Call
  body : Bytes → Call

-- What the calls make of a response.
unfoldable pub replay : List Call → Response → Response
replay [] w = w
replay (set name value ∷ calls) w = replay calls (set_header name value w)
replay (status code ∷ calls) w = replay calls (write_header code w)
replay (body b ∷ calls) w = replay calls (write b w)

-- http.Error
abbrev pub error_calls : String → ℕ → List Call
error_calls message code =
    set "Content-Type" "text/plain; charset=utf-8"
    ∷ set "X-Content-Type-Options" "nosniff"
    ∷ status code
    ∷ body (text message ++ text "\n")
    ∷ []

abbrev pub Serve : Type 0 → Type 0
Serve W = Request → W → W × List Call

-- The state of a gzipResponseWriter: the headers of the writer below, the status that is kept back,
-- and the bytes that its gzip.Writer has taken, where there is one.
pub record Writer : Type 0 where
  pub header : Header
  pub kept : ℕ
  pub wrote : Bool
  pub gz : Option Bytes

-- newGzipResponseWriter
abbrev pub new_writer : Header → Writer
new_writer header = record { header = header; kept = 200; wrote = false; gz = none }

-- `contains` is strings.Contains with the text that is looked for in front.
module _ (gzip : Bytes → Bytes) (contains : String → String → Bool) (client_gzip : Bool) where
  unfoldable pub should_gzip : Writer → Bool
  should_gzip g =
      let ct : String = get_header "Content-Type" g.header in
      client_gzip && (contains "application/json" ct || contains "text/html" ct)

  -- The first half of Write: the state, and the calls on the writer below.
  unfoldable pub start : Writer → Writer × List Call
  start g = elim g.wrote [
    | true ↦ (g, [])
    | false ↦
        if should_gzip g
        then (
          record g {
            header = insert "Content-Encoding" "gzip" g.header;
            wrote = true;
            gz = some [];
          },
          set "Content-Encoding" "gzip" ∷ status g.kept ∷ [],
        )
        else (record g { wrote = true }, status g.kept ∷ [])
  ]

  -- The second half. What the gzip.Writer sends is shown where it is closed.
  abbrev pub put : Bytes → Writer → Writer × List Call
  put b g = elim g.gz [
    | some taken ↦ (record g { gz = some (taken ++ b) }, [])
    | none ↦ (g, body b ∷ [])
  ]

  unfoldable pub call : Call → Writer → Writer × List Call
  unfolding start
  call (set name value) g = (record g { header = insert name value g.header }, set name value ∷ [])
  call (status code) g = (record g { kept = code }, [])
  call (body b) g =
      let (g1, first) = start g in let (g2, second) = put b g1 in (g2, first ++ second)

  unfoldable pub close : Writer → List Call
  close g =
      let sent : List Call = elim g.gz [ none ↦ [] | some taken ↦ body (gzip taken) ∷ [] ] in
      let last : List Call = if g.wrote then [] else status g.kept ∷ [] in sent ++ last

  -- All calls of a handler, and the deferred close.
  unfoldable pub wrapped : List Call → Writer → List Call
  unfolding call close
  wrapped [] g = close g
  wrapped (c ∷ calls) g = let (g', sent) = call c g in sent ++ wrapped calls g'

-- responseWriter of logging.go: the status and the size that are logged.
unfoldable pub logged : List Call → ℕ × ℕ → ℕ × ℕ
logged [] seen = seen
logged (set name value ∷ calls) seen = logged calls seen
logged (status code ∷ calls) (old, size) = logged calls (code, size)
logged (body b ∷ calls) (code, size) = logged calls (code, size + length b)

-- What is behind the encryption and the compression of a body.
unfoldable pub opened_body :
    {PublicKey PrivateKey : Type 0}
    → Cipher PublicKey PrivateKey
    → Gzip
    → PrivateKey
    → Body
    → Option Bytes
opened_body c g private_key b = elim (read_all b) [
  | none ↦ none
  | some ciphertext ↦ elim (decrypt c private_key ciphertext) [
    | err e ↦ none
    | ok compressed ↦
        if g.has_header (whole compressed) then read_all (g.gunzip (whole compressed)) else none
  ]
]

-- What run() configures.
pub record Config (Ip Subnet PublicKey PrivateKey : Type 0) : Type 0 where
  pub cipher : Cipher PublicKey PrivateKey
  pub gzip : Gzip
  pub mac : Mac
  pub contains : String → String → Bool
  pub parse_ip : String → Option Ip
  pub within : Subnet → Ip → Bool
  pub private_key : Option PrivateKey
  pub subnet : Option Subnet
  pub key : String

module _ {W : Type 0} where
  unfoldable pub gzip_middleware : Gzip → (String → String → Bool) → Serve W → Serve W
  unfolding wrapped
  gzip_middleware g contains next r world =
      let client_gzip : Bool = contains "gzip" (get_header "Accept-Encoding" r.header) in
      let inner : Request = record r {
        header = remove "Content-Encoding" r.header;
        body = g.gunzip r.body;
      } in
      let (opened, sent) = next inner world in
      let (plain, same) = next r world in
      let w : Writer = new_writer [] in
      if get_header "Content-Encoding" r.header == "gzip"
      then (if g.has_header r.body
          then (opened, wrapped g.gzip contains client_gzip sent w)
          else (world, error_calls "Invalid gzip body" 400))
      else (plain, wrapped g.gzip contains client_gzip same w)

  -- LoggingMiddleware of logging.go. The state is that of the handler, with the status and the size of the
  -- lines of the log.
  unfoldable pub logging_middleware : Serve W → Serve (W × List (ℕ × ℕ))
  unfolding logged
  logging_middleware next r (world, lines) =
      let (after, calls) = next r world in ((after, lines ++ (logged calls (200, 0) ∷ [])), calls)

  -- `parse_ip` is net.ParseIP and `within` Contains of net.IPNet.
  unfoldable pub trusted_subnet_middleware :
      {Ip Subnet : Type 0}
      → (String → Option Ip)
      → (Subnet → Ip → Bool)
      → Option Subnet
      → Serve W
      → Serve W
  trusted_subnet_middleware parse_ip within none next r world = next r world
  trusted_subnet_middleware parse_ip within (some subnet) next r world =
      elim (parse_ip (get_header "X-Real-IP" r.header)) [
        | none ↦ (world, error_calls "forbidden" 403)
        | some ip ↦ if within subnet ip then next r world else (world, error_calls "forbidden" 403)
      ]

  unfoldable pub decrypt_middleware :
      {PublicKey PrivateKey : Type 0}
      → Cipher PublicKey PrivateKey
      → Gzip
      → Option PrivateKey
      → Serve W
      → Serve W
  unfolding opened_body
  decrypt_middleware c g none next r world = next r world
  decrypt_middleware c g (some private_key) next r world =
      if get_header "Content-Encoding" r.header == "encrypted"
      then elim (opened_body c g private_key r.body) [
        | none ↦ (world, error_calls "bad request" 400)
        | some plain ↦
            next (record r { header = remove "Content-Encoding" r.header; body = whole plain })
              world
      ]
      else next r world

  -- NewSHA256CheckMiddleware
  unfoldable pub sha256_check_middleware : Mac → String → Serve W → Serve W
  sha256_check_middleware mac key next r world =
      if key == "" then next r world else elim (read_all r.body) [
        | none ↦ (world, error_calls "cannot read body" 400)
        | some b ↦
            if mac b key == get_header "HashSHA256" r.header
            then next (record r { body = whole b }) world
            else (world, error_calls "invalid hash" 400)
      ]

  -- The middlewares in the order of run(), those of other packages left out.
  unfoldable pub chain :
      {Ip Subnet PublicKey PrivateKey : Type 0}
      → Config Ip Subnet PublicKey PrivateKey
      → Serve W
      → Serve W
  chain cfg next = decrypt_middleware cfg.cipher cfg.gzip cfg.private_key (
      trusted_subnet_middleware cfg.parse_ip cfg.within cfg.subnet
        (gzip_middleware cfg.gzip cfg.contains (sha256_check_middleware cfg.mac cfg.key next)))
