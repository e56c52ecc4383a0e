-- ===== src/Handler.antt =====
-- internal/handler/handlers.go: the handlers of the metrics server. A handler takes the request, the
-- state of the server and the response written so far, and returns the last two anew.
pub mod Update
pub mod Value
pub mod Batch
pub mod Client
pub mod Routes
pub mod Page
mod Tests
use Prim.Native.Char.{code}
use Prim.Native.String
use study_project_metrics_an.Base.{
  ℕ, String, ◌≡◌, Bool, true, false, Option, none, some, List, [], ◌∷◌, map, ◌==◌, eqb,
  if◌then◌else◌,
}
use study_project_metrics_an.Base.Int64.{Int64}
use study_project_metrics_an.Base.Assoc.{Assoc}
use study_project_metrics_an.Model.{Float64, Metrics, type_counter, type_gauge}
use study_project_metrics_an.Wire.{Bytes, Body, text, Json, Gzip, Mac}
use study_project_metrics_an.Strconv.{parse_int, format_int}
use study_project_metrics_an.Http.{
  Header, get_header, Request, Response, set_header, write_header, write, http_error,
}
use study_project_metrics_an.Audit.{Subject, Event, notify}
use study_project_metrics_an.Handler.Page.{tmpl}
use study_project_metrics_an.Storage.{Error, metric_not_found, unknown_metric_type, Storage}

-- What the handlers call of the standard library and the model does not define: the codecs and the
-- text of their errors, the host in front of a port, the texts of a float64 (ParseFloat and the verb %g) and html/template:
-- what Execute writes for the two maps once a text is parsed, up to an error, which is only logged.
pub record Libs : Type 0 where
  pub json : Json
  pub gzip : Gzip
  pub mac : Mac
  pub decode_error : Body → String
  pub split_host_port : String → Option String
  pub parse_float : String → Option Float64
  pub format_float : Float64 → Bytes
  pub parse_template : String → Option (Assoc Float64 → Assoc Int64 → Bytes)

-- The state behind the handlers: that of the storage, and the audit subject, if there is one.
pub record World (S : Type 0) : Type 0 where
  pub store : S
  pub audit : Option Subject

pub record Handlers (S : Type 0) : Type 0 where
  pub storage : Storage S
  pub key : String
  pub libs : Libs

-- The text in front of the first comma, or all of it.
unfoldable pub before_comma : String → String
before_comma String.[] = String.[]
before_comma (String.◌∷◌ c s) =
    if eqb (code c) b',' then String.[] else String.◌∷◌ c (before_comma s)

abbrev or_text : Option String → String → String
or_text none s = s
or_text (some host) s = host

unfoldable pub extract_ip : (String → Option String) → Request → String
unfolding before_comma get_header
extract_ip split_host_port r =
    if get_header "X-Real-IP" r.header == ""
    then (if get_header "X-Forwarded-For" r.header == ""
        then or_text (split_host_port r.remote_addr) r.remote_addr
        else before_comma (get_header "X-Forwarded-For" r.header))
    else get_header "X-Real-IP" r.header

abbrev audited : Event → Option Subject → Option Subject
audited e none = none
audited e (some s) = some (notify e s)

abbrev error_text : Error → String
error_text metric_not_found = "metric not found"
error_text (unknown_metric_type t) = String.◌++◌ "unknown metric type: " t

-- The keys "type", "name" and "value" of chi.URLParam, which gives "" where one is missing.
abbrev pub url_param : String → Request → String
url_param name r = get_header name r.url_params

module _ {S : Type 0} (h : Handlers S) where
  unfoldable pub notify_audit : Request → List String → World S → World S
  notify_audit r metric_names world =
      let e : Event = record {
        ts = r.now;
        metrics = metric_names;
        ip_address = extract_ip h.libs.split_host_port r;
      } in
      record world { audit = audited e world.audit }

  unfoldable pub write_signed_response : Bytes → Response → Response
  write_signed_response body w =
      let signed : Response =
        if h.key == "" then w else set_header "HashSHA256" (h.libs.mac body h.key) w in
      write body (write_header 200 signed)

  unfoldable pub ping_handler : Request → World S → Response → World S × Response
  ping_handler r world w = elim (h.storage.ping world.store) [
    | none ↦ (world, write_header 200 w)
    | some e ↦ (world, http_error "Database unavailable" 500 w)
  ]

  -- The end of both JSON handlers: Marshal, and the signed response.
  unfoldable pub respond_metric : Metrics → Response → Option Response
  unfolding write_signed_response
  respond_metric x w = elim (h.libs.json.encode_metric x) [
    | none ↦ none
    | some body ↦ some (write_signed_response body (set_header "Content-Type" "application/json" w))
  ]

  abbrev marshal_error : World S → Response → Option Response → World S × Response
  marshal_error world w none = (world, http_error "marshal error" 500 w)
  marshal_error world w (some w') = (world, w')

  -- The `switch` of valueMetricJSONHandler: the metric with the stored value, or the error response.
  unfoldable pub stored_metric : Metrics → S → Response → Metrics × Option Response
  stored_metric req s w =
      if req.mtype == type_gauge
      then elim (h.storage.get_gauge req.id s).1 [
        | some e ↦ (req, some (http_error "Metric not found" 404 w))
        | none ↦ (record req { value = some (h.storage.get_gauge req.id s).0 }, none)
      ]
      else if req.mtype == type_counter
      then elim (h.storage.get_counter req.id s).1 [
        | some e ↦ (req, some (http_error "Metric not found" 404 w))
        | none ↦ (record req { delta = some (h.storage.get_counter req.id s).0 }, none)
      ]
      else (req, some (http_error "Invalid metric type" 400 w))

  unfoldable pub value_metric_json_handler : Request → World S → Response → World S × Response
  unfolding stored_metric respond_metric
  value_metric_json_handler r world w = elim (h.libs.json.read_metric r.body) [
    | none ↦ (world, http_error "Invalid JSON" 400 w)
    | some req ↦
        let (stored, failed) = stored_metric req world.store w in
        elim failed [
          | some w' ↦ (world, w')
          | none ↦ marshal_error world w (respond_metric stored w)
        ]
  ]

  -- decodeBody; `none` is an error.
  unfoldable pub decode_body : Request → Option (List Metrics)
  unfolding get_header
  decode_body r =
      if get_header "Content-Encoding" r.header == "gzip"
      then (if h.libs.gzip.has_header r.body
          then h.libs.json.read_metrics (h.libs.gzip.gunzip r.body)
          else none)
      else h.libs.json.read_metrics r.body

  -- BatchUpdateMetrics once the body is decoded.
  unfoldable pub apply_batch : List Metrics → Request → World S → Response → World S × Response
  unfolding notify_audit
  apply_batch [] r world w = (world, http_error "empty metrics batch" 400 w)
  apply_batch (x ∷ xs) r world w =
      let (s, err) = h.storage.batch_update (x ∷ xs) world.store in
      let applied : World S = record world { store = s } in
      elim err [
        | some e ↦ (applied, http_error (error_text e) 500 w)
        | none ↦ (notify_audit r (map (λ m. m.id) (x ∷ xs)) applied, write_header 200 w)
      ]

  unfoldable pub batch_update_metrics : Request → World S → Response → World S × Response
  unfolding decode_body apply_batch
  batch_update_metrics r world w = elim (decode_body r) [
    | none ↦ (world, http_error (h.libs.decode_error r.body) 400 w)
    | some metrics ↦ apply_batch metrics r world w
  ]

  -- The `switch` of updateMetricJSONHandler: the storage after the update and the metric with the
  -- value read back, or the error response.
  unfoldable pub update_stored : Metrics → S → Response → S × Metrics × Option Response
  update_stored x s w =
      if x.mtype == type_gauge
      then elim x.value [
        | none ↦ (s, x, some (http_error "Missing value for gauge" 400 w))
        | some v ↦
            let s' = h.storage.update_gauge x.id v s in
            (s', record x { value = some (h.storage.get_gauge x.id s').0 }, none)
      ]
      else if x.mtype == type_counter
      then elim x.delta [
        | none ↦ (s, x, some (http_error "Missing delta for counter" 400 w))
        | some d ↦
            let s' = h.storage.update_counter x.id d s in
            (s', record x { delta = some (h.storage.get_counter x.id s').0 }, none)
      ]
      else (s, x, some (http_error "Invalid metric type" 400 w))

  abbrev answer_update :
      Request → Metrics → World S → Response → Option Response → World S × Response
  answer_update r x world w none = (world, http_error "marshal error" 500 w)
  answer_update r x world w (some w') = (notify_audit r (x.id ∷ []) world, w')

  unfoldable pub update_metric_json_handler : Request → World S → Response → World S × Response
  unfolding update_stored respond_metric notify_audit
  update_metric_json_handler r world w = elim (h.libs.json.read_metric r.body) [
    | none ↦ (world, http_error "Invalid JSON" 400 w)
    | some x ↦
        let (s, updated, failed) = update_stored x world.store w in
        let after : World S = record world { store = s } in
        elim failed [
          | some w' ↦ (after, w')
          | none ↦ answer_update r updated after w (respond_metric updated w)
        ]
  ]

  -- The end of updateMetric on success.
  abbrev ok_text : Response → Response
  ok_text w =
      write (text "OK\n")
        (write_header 200 (set_header "Content-Type" "text/plain; charset=utf-8" w))

  -- updateMetric; the last component is its result, whether the update was applied.
  unfoldable pub update_metric : String → String → String → S → Response → S × Response × Bool
  update_metric metric_type metric_name metric_value s w =
      if metric_type == "gauge"
      then elim (h.libs.parse_float metric_value) [
        | none ↦ (s, http_error "Invalid gauge value" 400 w, false)
        | some v ↦ (h.storage.update_gauge metric_name v s, ok_text w, true)
      ]
      else if metric_type == "counter"
      then elim (parse_int (text metric_value)) [
        | none ↦ (s, http_error "Invalid counter value" 400 w, false)
        | some v ↦ (h.storage.update_counter metric_name v s, ok_text w, true)
      ]
      else (s, http_error "Unknown metric type. Use 'gauge' or 'counter'" 400 w, false)

  unfoldable pub update_handler_chi : Request → World S → Response → World S × Response
  unfolding update_metric notify_audit
  update_handler_chi r world w =
      let (s, w', done) =
        update_metric (url_param "type" r) (url_param "name" r) (url_param "value" r) world.store
          w in
      let after : World S = record world { store = s } in
      if done then (notify_audit r (url_param "name" r ∷ []) after, w') else (after, w')

  unfoldable pub value_handler : Request → World S → Response → World S × Response
  value_handler r world w =
      let w' = set_header "Content-Type" "text/plain; charset=utf-8" w in
      if url_param "type" r == "gauge"
      then elim (h.storage.get_gauge (url_param "name" r) world.store).1 [
        | some e ↦ (world, http_error "Metric not found" 404 w')
        | none ↦ (
          world,
          write (h.libs.format_float (h.storage.get_gauge (url_param "name" r) world.store).0) w',
        )
      ]
      else if url_param "type" r == "counter"
      then elim (h.storage.get_counter (url_param "name" r) world.store).1 [
        | some e ↦ (world, http_error "Metric not found" 404 w')
        | none ↦ (
          world,
          write (format_int (h.storage.get_counter (url_param "name" r) world.store).0) w',
        )
      ]
      else (world, http_error "Unknown metric type. Use 'gauge' or 'counter'" 404 w')

  unfoldable pub root_handler : Request → World S → Response → World S × Response
  root_handler r world w =
      let (gauges, counters) = h.storage.get_all_metrics world.store in
      elim (h.libs.parse_template tmpl) [
        | none ↦ (world, http_error "Template error" 500 w)
        | some execute ↦ (
          world,
          write (execute gauges counters)
              (write_header 200 (set_header "Content-Type" "text/html; charset=utf-8" w)),
        )
      ]
