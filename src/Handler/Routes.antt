-- ===== src/Handler/Routes.antt =====
-- RegisterRoutes of internal/handler/handlers.go: the routes, and the service of a request through them.
-- A path is the list of the texts between its slashes, none for the root. The router of the chi package
-- is a parameter.
pub mod Apart
pub mod Served
pub mod Client
pub mod Stub
mod Tests
use study_project_metrics_an.Base.{
  ℕ, zero, suc, String, ◌≡◌, ◌≢◌, Option, none, some, List, [], ◌∷◌, map, ◌==◌, if◌then◌else◌, All,
}
use study_project_metrics_an.Base.Assoc.{Assoc}
use study_project_metrics_an.Http.{Request, Response, http_error}
use study_project_metrics_an.Handler.{
  World, Handlers, update_metric_json_handler, value_metric_json_handler, batch_update_metrics,
  update_handler_chi, value_handler, root_handler, ping_handler,
}

pub data Segment : Type 0 where
  literal : String → Segment
  param : String → Segment

abbrev pub Pattern : Type 0
Pattern = List Segment

-- A handler, as the router calls it.
abbrev pub Serve : Type 0 → Type 0
Serve S = Request → World S → Response → World S × Response

pub record Route (S : Type 0) : Type 0 where
  pub method : String
  pub pattern : Pattern
  pub serve : Serve S

abbrev pub taken : String → String → Option (Assoc String) → Option (Assoc String)
taken name value none = none
taken name value (some params) = some ((name, value) ∷ params)

-- The parameters that a pattern takes from a path, if it fits.
unfoldable pub fits : Pattern → List String → Option (Assoc String)
fits [] [] = some []
fits [] (s ∷ path) = none
fits (x ∷ pattern) [] = none
fits (literal t ∷ pattern) (s ∷ path) =
    let rest = fits pattern path in if t == s then rest else none
fits (param name ∷ pattern) (s ∷ path) = taken name s (fits pattern path)

-- From the routes, the method and the path to the number of a route and the parameters.
abbrev pub Router : Type 0
Router = List (String × Pattern) → String → List String → Option (ℕ × Assoc String)

unfoldable pub FitsAt : List (String × Pattern) → ℕ → String → List String → Assoc String → Type 0
FitsAt [] i method path params = ⊥
FitsAt (key ∷ keys) zero method path params = (key.0 ≡ method) × (fits key.1 path ≡ some params)
FitsAt (key ∷ keys) (suc i) method path params = FitsAt keys i method path params

abbrev pub IsPath : List String → Type 0
IsPath path = All (λ s. s ≢ "") path

-- What chi documents of a path with no empty segment: a route that is found fits, and one is found
-- where one fits.
pub record IsRouter (find : Router) : Type 0 where
  pub sound :
      (keys : List (String × Pattern)) (method : String) (path : List String) (i : ℕ)
      (params : Assoc String)
      → IsPath path
      → find keys method path ≡ some (i, params)
      → FitsAt keys i method path params
  pub complete :
      (keys : List (String × Pattern)) (method : String) (path : List String) (i : ℕ)
      (params : Assoc String)
      → IsPath path
      → FitsAt keys i method path params
      → find keys method path ≢ none

abbrev pub key : {S : Type 0} → Route S → String × Pattern
key route = (route.method, route.pattern)

module _ {S : Type 0} (h : Handlers S) where
  abbrev value_required : Serve S
  value_required r world w = (world, http_error "metric value is required" 404 w)

  abbrev name_required : Serve S
  name_required r world w = (world, http_error "metric name is required" 404 w)

  -- RegisterRoutes
  unfoldable pub register_routes : List (Route S)
  register_routes =
      record {
        method = "POST";
        pattern = literal "update" ∷ [];
        serve = update_metric_json_handler h;
      }
      ∷ record {
        method = "POST";
        pattern = literal "value" ∷ [];
        serve = value_metric_json_handler h;
      }
      ∷ record { method = "POST"; pattern = literal "updates" ∷ []; serve = batch_update_metrics h }
      ∷ record {
        method = "POST";
        pattern = literal "update" ∷ param "type" ∷ param "name" ∷ param "value" ∷ [];
        serve = update_handler_chi h;
      }
      ∷ record {
        method = "POST";
        pattern = literal "update" ∷ param "type" ∷ param "name" ∷ [];
        serve = value_required;
      }
      ∷ record {
        method = "POST";
        pattern = literal "update" ∷ param "type" ∷ [];
        serve = name_required;
      }
      ∷ record {
        method = "GET";
        pattern = literal "value" ∷ param "type" ∷ param "name" ∷ [];
        serve = value_handler h;
      }
      ∷ record { method = "GET"; pattern = []; serve = root_handler h }
      ∷ record { method = "GET"; pattern = literal "ping" ∷ []; serve = ping_handler h }
      ∷ []

-- `otherwise` answers where no route is found.
abbrev pub serve_at : {S : Type 0} → List (Route S) → ℕ → Serve S → Serve S
serve_at [] i otherwise = otherwise
serve_at (route ∷ routes) zero otherwise = route.serve
serve_at (route ∷ routes) (suc i) otherwise = serve_at routes i otherwise

unfoldable pub dispatch :
    {S : Type 0} → Router → Serve S → List (Route S) → String → List String → Serve S
dispatch find otherwise routes method path r world w = elim (find (map key routes) method path) [
  | none ↦ otherwise r world w
  | some found ↦ serve_at routes found.0 otherwise (record r { url_params = found.1 }) world w
]
