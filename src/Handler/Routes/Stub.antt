-- ===== src/Handler/Routes/Stub.antt =====
-- internal/server/server.go: NewServer, whose router has one route, and ServeHTTP. The middlewares Logger,
-- Recoverer and RequestID of its router are left out.
use study_project_metrics_an.Base.{
  ℕ, zero, suc, String, ◌≡◌, refl, sym, ap, ◌⊎◌, inl, inr, Option, none, some, List, [], ◌∷◌,
  eq_iff, arith,
}
use study_project_metrics_an.Base.Assoc.{Assoc}
use study_project_metrics_an.Http.{Request, Response}
use study_project_metrics_an.Handler.{World, Handlers, ping_handler}
use study_project_metrics_an.Handler.Routes.{
  Pattern, Route, Serve, Router, IsRouter, IsPath, literal, fits, FitsAt, serve_at, dispatch,
}

unfoldable pub new_server : {S : Type 0} → Handlers S → List (Route S)
new_server h = record { method = "GET"; pattern = literal "ping" ∷ []; serve = ping_handler h } ∷ []

-- `otherwise` is what the router answers where it has no route.
unfoldable pub serve_http :
    {S : Type 0} → Router → Serve S → Handlers S → String → List String → Serve S
unfolding new_server dispatch
serve_http find otherwise h method path r world w =
    dispatch find otherwise (new_server h) method path r world w

fits-ping :
    (path : List String) (params : Assoc String)
    → fits (literal "ping" ∷ []) path ≡ some params
    → (path ≡ "ping" ∷ []) × (params ≡ [])
unfolding fits
fits-ping [] params e = absurd cc
fits-ping (s ∷ []) params e = ground (arith, eq_iff "ping" s)
fits-ping (s ∷ t ∷ path) params e = absurd (ground (arith, eq_iff "ping" s))

module _ {S : Type 0} (find : Router) (lawful : IsRouter find) (otherwise : Serve S)
    (h : Handlers S) (method : String) (path : List String) (clean : IsPath path) (r : Request)
    (world : World S) (w : Response) where
  abbrev keys : List (String × Pattern)
  keys = ("GET", literal "ping" ∷ []) ∷ []

  -- What is answered to a request, by what the router finds.
  abbrev IsAnswered : World S × Response → Type 0
  IsAnswered answer =
      (answer ≡ otherwise r world w)
      ⊎ (method ≡ "GET")
        × (path ≡ "ping" ∷ [])
        × (answer ≡ ping_handler h (record r { url_params = [] }) world w)

  found-answered :
      (o : Option (ℕ × Assoc String))
      → find keys method path ≡ o
      → IsAnswered (elim o [
        | none ↦ otherwise r world w
        | some found ↦
            serve_at (new_server h) found.0 otherwise (record r { url_params = found.1 }) world w
      ])
  unfolding new_server FitsAt
  found-answered none e = inl refl
  found-answered (some (zero, params)) e =
      let (m, f) = lawful.sound keys method path 0 params clean e in
      let (p, q) = fits-ping path params f in
      inr (sym m, p, ap (λ t. ping_handler h (record r { url_params = t }) world w) q)
  found-answered (some (suc i, params)) e =
      absurd (lawful.sound keys method path (suc i) params clean e)

  -- The server answers GET /ping by the handler that asks the storage, and any other request as its
  -- router does where there is no route.
  pub serve_http-answered : IsAnswered (serve_http find otherwise h method path r world w)
  unfolding serve_http
  serve_http-answered = found-answered (find keys method path) refl
