-- ===== src/Handler/Routes/Client.antt =====
-- What a client of the routes reads after it has written.
use study_project_metrics_an.Base.{
  String, Bool, true, false, ◌≡◌, ◌≢◌, refl, sym, ap, ◌∙◌, none, some, List, [], ◌∷◌, ◌==◌, eq_iff,
}
use study_project_metrics_an.Base.Assoc.{Assoc, lookup}
use study_project_metrics_an.Base.Int64.{Int64, add64}
use study_project_metrics_an.Wire.{text}
use study_project_metrics_an.Strconv.{parse_int, format_int}
use study_project_metrics_an.Http.{Request, Response, get_header, new_response}
use study_project_metrics_an.Storage.{IsLawful}
use study_project_metrics_an.Handler.{World, Handlers, update_handler_chi, value_handler}
use study_project_metrics_an.Handler.Client.{IsAnswer, value-update_counter}
use study_project_metrics_an.Handler.Routes.{
  Serve, Router, IsRouter, literal, param, fits, register_routes, dispatch,
}
use study_project_metrics_an.Handler.Routes.Served.{dispatch-Stands}

clash : {b : Bool} → b ≡ false → b ≡ true → ⊥
clash e f = cc

pub named : (s : String) → (s == "") ≡ false → s ≢ ""
named s e = λ p. clash e ((eq_iff s "").1 p)

none-some : {d : Int64} → none ≡ some d → ⊥
none-some e = cc

-- ParseInt refuses the empty text.
parse_int-named : (v : String) (d : Int64) → parse_int (text v) ≡ some d → v ≢ ""
unfolding parse_int
parse_int-named v d parsed = λ e. none-some (sym (ap (λ t. parse_int (text t)) e) ∙ parsed)

module _ {S : Type 0} (h : Handlers S) (find : Router) (lawful : IsRouter find)
    (otherwise : Serve S) where
  abbrev pub served : String → List String → Serve S
  served method path = dispatch find otherwise (register_routes h) method path

  -- The request as the handler sees it.
  abbrev with_params : Request → Assoc String → Request
  with_params r params = record r { url_params = params }

  served-update :
      (t name v : String) (r : Request) (world : World S) (w : Response)
      → t ≢ ""
      → name ≢ ""
      → v ≢ ""
      → served "POST" ("update" ∷ t ∷ name ∷ v ∷ []) r world w
        ≡ update_handler_chi h
            (with_params r (("type", t) ∷ ("name", name) ∷ ("value", v) ∷ []))
            world
            w
  unfolding register_routes fits
  served-update t name v r world w a b c =
      dispatch-Stands h find lawful otherwise
        (record {
          method = "POST";
          pattern = literal "update" ∷ param "type" ∷ param "name" ∷ param "value" ∷ [];
          serve = update_handler_chi h;
        })
        3 ("update" ∷ t ∷ name ∷ v ∷ []) (("type", t) ∷ ("name", name) ∷ ("value", v) ∷ []) r world
        w refl ((named "update" refl), (a, (b, (c, tt)))) refl

  served-value :
      (t name : String) (r : Request) (world : World S) (w : Response)
      → t ≢ ""
      → name ≢ ""
      → served "GET" ("value" ∷ t ∷ name ∷ []) r world w
        ≡ value_handler h (with_params r (("type", t) ∷ ("name", name) ∷ [])) world w
  unfolding register_routes fits
  served-value t name r world w a b =
      dispatch-Stands h find lawful otherwise
        (record {
          method = "GET";
          pattern = literal "value" ∷ param "type" ∷ param "name" ∷ [];
          serve = value_handler h;
        })
        6 ("value" ∷ t ∷ name ∷ []) (("type", t) ∷ ("name", name) ∷ []) r world w refl
        ((named "value" refl), (a, (b, tt))) refl

  -- Over a lawful storage and through a router that keeps to what it documents, POST
  -- /update/counter/{name}/{value} and then GET /value/counter/{name} gives the decimal text of what
  -- the counter was before, or 0, plus the delta, modulo 2 ^ 64, for every name that is not empty
  -- and every value that ParseInt reads.
  pub served-update_counter :
      IsLawful h.storage
      → (name v : String) (post get : Request) (world : World S) (d : Int64) → name ≢ ""
      → parse_int (text v) ≡ some d
      → IsAnswer
          (format_int (add64 (h.storage.get_counter name world.store).0 d))
          (served "GET"
            ("value" ∷ "counter" ∷ name ∷ [])
            get
            (served "POST" ("update" ∷ "counter" ∷ name ∷ v ∷ []) post world new_response).0
            new_response).1
  unfolding get_header lookup
  served-update_counter laws name v post get world d n parsed =
      let stored : World S =
        (served "POST" ("update" ∷ "counter" ∷ name ∷ v ∷ []) post world new_response).0 in
      rw (served-value "counter" name get stored new_response (named "counter" refl) n) (
        rw
          (served-update "counter" name v post world new_response (named "counter" refl) n
            (parse_int-named v d parsed))
          (value-update_counter h laws world
            (with_params post (("type", "counter") ∷ ("name", name) ∷ ("value", v) ∷ []))
            (with_params get (("type", "counter") ∷ ("name", name) ∷ [])) refl d refl refl parsed))
