-- ===== src/Handler/Routes/Tests.antt =====
-- A router that takes the first route that fits, and requests through it.
use study_project_metrics_an.Base.{
  ℕ, zero, suc, String, ◌≡◌, ◌≢◌, refl, Bool, true, false, Option, none, some, List, [], ◌∷◌, ◌==◌,
  eq_iff, arith,
}
use study_project_metrics_an.Base.Assoc.{Assoc}
use study_project_metrics_an.Base.Int64.{add64}
use study_project_metrics_an.Wire.{whole, text}
use study_project_metrics_an.Strconv.{parse_int, format_int}
use study_project_metrics_an.Http.{Request, new_response, http_error}
use study_project_metrics_an.Fixtures.{listed, toy_libs}
use study_project_metrics_an.Storage.Memory.{MetricsStorage, new_mem_storage}
use study_project_metrics_an.Storage.Memory.Laws.{mem_storage-IsLawful}
use study_project_metrics_an.Handler
use study_project_metrics_an.Handler.{World, Handlers}
use study_project_metrics_an.Handler.Batch.{mem_handlers}
use study_project_metrics_an.Handler.Client.{IsAnswer}
use study_project_metrics_an.Handler.Routes.{
  Pattern, Route, Serve, Router, IsRouter, literal, fits, FitsAt, register_routes, dispatch,
}
use study_project_metrics_an.Handler.Routes.Client.{named, served, served-update_counter}

abbrev pick : Bool → Option (Assoc String) → Option (ℕ × Assoc String) → Option (ℕ × Assoc String)
pick true (some params) later = some (0, params)
pick true none none = none
pick false fit none = none
pick true none (some (i, params)) = some (suc i, params)
pick false fit (some (i, params)) = some (suc i, params)

unfoldable first_fit : Router
first_fit [] method path = none
first_fit (key ∷ keys) method path =
    let later = first_fit keys method path in pick (key.0 == method) (fits key.1 path) later

first_fit_sound :
    (keys : List (String × Pattern)) (method : String) (path : List String) (i : ℕ)
    (params : Assoc String)
    → first_fit keys method path ≡ some (i, params)
    → FitsAt keys i method path params
unfolding first_fit FitsAt
first_fit_sound [] method path i params e = absurd cc
first_fit_sound (key ∷ keys) method path zero params e = ground (arith, eq_iff key.0 method)
first_fit_sound (key ∷ keys) method path (suc i) params e =
    first_fit_sound keys method path i params (ground arith)

first_fit_complete :
    (keys : List (String × Pattern)) (method : String) (path : List String) (i : ℕ)
    (params : Assoc String)
    → FitsAt keys i method path params
    → first_fit keys method path ≢ none
unfolding first_fit FitsAt
first_fit_complete [] method path i params f = absurd f
first_fit_complete (key ∷ keys) method path zero params f = λ e. ground (arith, eq_iff key.0 method)
first_fit_complete (key ∷ keys) method path (suc i) params f =
    let later = first_fit_complete keys method path i params f in λ e. ground (arith, later)

first_fit-IsRouter : IsRouter first_fit
first_fit-IsRouter = record {
  sound = λ keys method path i params p e. first_fit_sound keys method path i params e;
  complete = λ keys method path i params p f. first_fit_complete keys method path i params f;
}

abbrev handlers : Handlers MetricsStorage
handlers = mem_handlers listed "" toy_libs

abbrev world : World MetricsStorage
world = record { store = new_mem_storage; audit = none }

abbrev plain : Request
plain = record {
  header = [];
  body = whole [];
  remote_addr = "10.0.0.1:80";
  url_params = [];
  now = 1700000000;
}

-- The answer of chi to a path that it has no route for.
abbrev not_found : Serve MetricsStorage
not_found r w response = (w, http_error "404 page not found" 404 response)

abbrev toy_served : String → List String → Serve MetricsStorage
toy_served = served handlers first_fit first_fit-IsRouter not_found

abbrev updates : Route MetricsStorage
updates = record {
  method = "POST";
  pattern = literal "updates" ∷ [];
  serve = Handler.batch_update_metrics handlers;
}

three : parse_int (text "3") ≡ some 3
unfolding parse_int
three = refl

served-update_counter_example :
    IsAnswer
      (format_int (add64 (handlers.storage.get_counter "n" new_mem_storage).0 3))
      (toy_served "GET"
        ("value" ∷ "counter" ∷ "n" ∷ [])
        plain
        (toy_served "POST" ("update" ∷ "counter" ∷ "n" ∷ "3" ∷ []) plain world new_response).0
        new_response).1
served-update_counter_example =
    served-update_counter handlers first_fit first_fit-IsRouter not_found
      (mem_storage-IsLawful listed) "n" "3" plain plain world 3 (named "n" refl) three

-- A path with no value is answered with 404, and nothing changes.
no_value :
    toy_served "POST" ("update" ∷ "counter" ∷ "n" ∷ []) plain world new_response
    ≡ (world, http_error "metric value is required" 404 new_response)
unfolding dispatch register_routes first_fit fits
no_value = refl

unknown_method :
    toy_served "PUT" ("updates" ∷ []) plain world new_response
    ≡ (world, http_error "404 page not found" 404 new_response)
unfolding dispatch register_routes first_fit fits
unknown_method = refl
