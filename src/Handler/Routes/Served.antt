-- ===== src/Handler/Routes/Served.antt =====
-- Where the router brings a request.
use study_project_metrics_an.Base.{
  ℕ, zero, suc, String, ◌≡◌, ◌≢◌, refl, ap, ◌∙◌, Option, none, some, List, [], ◌∷◌, map,
}
use study_project_metrics_an.Base.Assoc.{Assoc}
use study_project_metrics_an.Http.{Request, Response}
use study_project_metrics_an.Handler.{World, Handlers}
use study_project_metrics_an.Handler.Routes.{
  Route, Pattern, Serve, Router, IsRouter, IsPath, fits, FitsAt, key, register_routes, serve_at,
  dispatch,
}
use study_project_metrics_an.Handler.Routes.Apart.{FitsAt-unique, register_routes-apart}

-- The route stands at a place of the list.
abbrev pub Stands : {S : Type 0} → Route S → List (Route S) → ℕ → Type 0
Stands route [] i = ⊥
Stands route (first ∷ routes) zero = first ≡ route
Stands route (first ∷ routes) (suc i) = Stands route routes i

Stands-FitsAt :
    {S : Type 0} (route : Route S) (routes : List (Route S)) (i : ℕ) (path : List String)
    (params : Assoc String)
    → Stands route routes i
    → fits route.pattern path ≡ some params
    → FitsAt (map key routes) i route.method path params
unfolding FitsAt
Stands-FitsAt route [] i path params s f = s
Stands-FitsAt route (first ∷ routes) zero path params s f =
    (ap (λ t. t.method) s, ap (λ t. fits t.pattern path) s ∙ f)
Stands-FitsAt route (first ∷ routes) (suc i) path params s f =
    Stands-FitsAt route routes i path params s f

serve_at-Stands :
    {S : Type 0} (route : Route S) (routes : List (Route S)) (i : ℕ) (otherwise : Serve S)
    → Stands route routes i
    → serve_at routes i otherwise ≡ route.serve
serve_at-Stands route [] i otherwise s = absurd s
serve_at-Stands route (first ∷ routes) zero otherwise s = ap (λ t. t.serve) s
serve_at-Stands route (first ∷ routes) (suc i) otherwise s =
    serve_at-Stands route routes i otherwise s

determined :
    (o : Option (ℕ × Assoc String)) (i : ℕ) (params : Assoc String)
    → o ≢ none
    → ((j : ℕ) (c : Assoc String) → o ≡ some (j, c) → (j ≡ i) × (c ≡ params))
    → o ≡ some (i, params)
determined none i params some_route only = absurd (some_route refl)
determined (some (j, c)) i params some_route only =
    let (same, params_same) = only j c refl in
    ap (λ (n : ℕ). some (n, c)) same ∙ ap (λ (d : Assoc String). some (i, d)) params_same

module _ {S : Type 0} (h : Handlers S) (find : Router) (lawful : IsRouter find)
    (otherwise : Serve S) where
  abbrev keys : List (String × Pattern)
  keys = map key (register_routes h)

  find-fits :
      (i : ℕ) (method : String) (path : List String) (params : Assoc String)
      → IsPath path
      → FitsAt keys i method path params
      → find keys method path ≡ some (i, params)
  find-fits i method path params p f =
      determined (find keys method path) i params (lawful.complete keys method path i params p f)
        (λ j c e.
          FitsAt-unique keys j i method path c params (register_routes-apart h)
            (lawful.sound keys method path j c p e) f)

  -- A request whose method and path fit a route of the table is served by that route's handler, with
  -- the parameters that its pattern takes from the path, in whatever order the router goes through the
  -- table: no second route fits.
  pub dispatch-Stands :
      (route : Route S) (i : ℕ) (path : List String) (params : Assoc String) (r : Request)
      (world : World S) (w : Response)
      → Stands route (register_routes h) i
      → IsPath path
      → fits route.pattern path ≡ some params
      → dispatch find otherwise (register_routes h) route.method path r world w
        ≡ route.serve (record r { url_params = params }) world w
  unfolding dispatch
  dispatch-Stands route i path params r world w s p f =
      rw
        (
          find-fits i route.method path params p
              (Stands-FitsAt route (register_routes h) i path params s f),
          dispatch,
        )
        (ap (λ (serve : Serve S). serve (record r { url_params = params }) world w)
          (serve_at-Stands route (register_routes h) i otherwise s))
