-- ===== src/Logger/Sent.antt =====
-- What the log says of a response, against what is sent.
use study_project_metrics_an.Base.{
  ℕ, ◌<◌, ◌≡◌, refl, Bool, true, false, Option, none, some, List, [], ◌∷◌, ◌++◌, length,
  length-append, arith, eqb, if◌then◌else◌,
}
use study_project_metrics_an.Http
use study_project_metrics_an.Http.{Request, Response, new_response, first_status}
use study_project_metrics_an.Middleware.{Call, set, status, body, replay, Serve}
use study_project_metrics_an.Logger.{
  ResponseLogger, new_response_logger, write_header, write, seen, log_middleware,
}

-- WriteHeader is called once at most, before the first write, and with a status that is not 0.
abbrev pub IsOrderly : Bool → List Call → Type 0
IsOrderly sent [] = Unit
IsOrderly sent (set name value ∷ calls) = IsOrderly sent calls
IsOrderly sent (status code ∷ calls) = (sent ≡ false) × (0 < code) × IsOrderly true calls
IsOrderly sent (body b ∷ calls) = IsOrderly true calls

-- The status of a response to which nothing was sent is logged as 0.
abbrev pub sent_status : Option ℕ → ℕ
sent_status none = 0
sent_status (some code) = code

abbrev pub IsLogged : ResponseLogger → Response → Type 0
IsLogged rl w = (rl.status_code ≡ sent_status w.status) × (rl.size ≡ length w.body)

-- Before and after the status is sent.
abbrev IsStatus : Bool → Option ℕ → Type 0
IsStatus false s = s ≡ none
IsStatus true none = ⊥
IsStatus true (some code) = 0 < code

write-IsStatus :
    (sent : Bool) (o : Option ℕ) (code : ℕ)
    → code ≡ sent_status o
    → IsStatus sent o
    → ((if eqb code 0 then 200 else code) ≡ sent_status (first_status o 200))
      × IsStatus true (first_status o 200)
write-IsStatus sent none code l s = (ground arith, omega arith)
write-IsStatus false (some old) code l s = absurd cc
write-IsStatus true (some old) code l s = (ground arith, s)

header-IsStatus :
    (sent : Bool) (o : Option ℕ) (code : ℕ)
    → sent ≡ false
    → 0 < code
    → IsStatus sent o
    → (code ≡ sent_status (first_status o code)) × IsStatus true (first_status o code)
header-IsStatus sent none code e p s = (refl, p)
header-IsStatus false (some old) code e p s = absurd cc
header-IsStatus true o code e p s = absurd cc

write-IsLogged :
    (sent : Bool) (b : List ℕ) (rl : ResponseLogger) (w : Response)
    → IsLogged rl w
    → IsStatus sent w.status
    → IsLogged (write b rl) (Http.write b w) × IsStatus true (Http.write b w).status
write-IsLogged sent b rl w l s =
    let (a, b') = write-IsStatus sent w.status rl.status_code l.0 s in
    ((a, ground (arith, length-append w.body b)), b')

seen-IsLogged :
    (calls : List Call) (sent : Bool) (rl : ResponseLogger) (w : Response)
    → IsOrderly sent calls
    → IsLogged rl w
    → IsStatus sent w.status
    → IsLogged (seen calls rl) (replay calls w)
unfolding seen replay
seen-IsLogged [] sent rl w o l s = l
seen-IsLogged (set name value ∷ calls) sent rl w o l s =
    seen-IsLogged calls sent rl (Http.set_header name value w) o l s
seen-IsLogged (status code ∷ calls) sent rl w o l s =
    let (l', s') = header-IsStatus sent w.status code o.0 o.1 s in
    seen-IsLogged calls true (write_header code rl) (Http.write_header code w) o.2 (l', l.1) s'
seen-IsLogged (body b ∷ calls) sent rl w o l s =
    let (l', s') = write-IsLogged sent b rl w l s in
    seen-IsLogged calls true (write b rl) (Http.write b w) o l' s'

-- The line of the log for a handler that calls WriteHeader once at most, before its first write, gives
-- the status and the number of bytes of the response, or 0 where no status is sent, and the calls on
-- the response writer and the state of the handler are not changed by the middleware.
pub log_middleware-IsLogged :
    {W : Type 0} (next : Serve W) (r : Request) (world : W) (lines : List ResponseLogger)
    → IsOrderly false (next r world).1
    → (line : ResponseLogger) × (log_middleware next r (world, lines)
        ≡ (((next r world).0, lines ++ (line ∷ [])), (next r world).1))
      × IsLogged line (replay (next r world).1 new_response)
unfolding log_middleware
log_middleware-IsLogged next r world lines o = (
  seen (next r world).1 new_response_logger,
  refl,
  seen-IsLogged (next r world).1 false new_response_logger new_response o (refl, refl) refl,
)
