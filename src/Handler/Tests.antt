-- ===== src/Handler/Tests.antt =====
-- The handlers on concrete requests over the in-memory storage.
use study_project_metrics_an.Base.{String, ◌≡◌, refl, ◌↔◌, some, none, [], ◌∷◌}
use study_project_metrics_an.Base.Int64.{add64}
use study_project_metrics_an.Base.Assoc.{Assoc, lookup, insert}
use study_project_metrics_an.Wire.{Bytes, whole, text}
use study_project_metrics_an.Strconv.{parse_int, format_int, digits}
use study_project_metrics_an.Fixtures.{listed, toy_json, toy_libs, gauge_a, counter_n, histogram_h}
use study_project_metrics_an.Http.{Request, new_response, get_header}
use study_project_metrics_an.Audit.{new_subject}
use study_project_metrics_an.Storage.Memory
use study_project_metrics_an.Storage.Memory.{
  MetricsStorage, new_mem_storage, mem_storage, batch_update,
}
use study_project_metrics_an.Handler.{
  World, Handlers, Libs, url_param, extract_ip, decode_body, update_metric_json_handler,
  update_handler_chi, batch_update_metrics, value_handler, root_handler,
}
use study_project_metrics_an.Handler.Batch.{
  mem_handlers, IsBatch, batch_update_metrics-succeeds_iff,
}

abbrev handlers : Handlers MetricsStorage
handlers = mem_handlers listed "k" toy_libs

abbrev world : World MetricsStorage
world = record { store = new_mem_storage; audit = some (new_subject (0 ∷ [])) }

-- A request with a body and the parameters of a path.
abbrev ask : Bytes → Assoc String → Request
ask body params = record {
  header = ("X-Forwarded-For", "10.0.0.7, 10.0.0.8") ∷ [];
  body = whole body;
  remote_addr = "10.0.0.1:80";
  url_params = params;
  now = 1700000000;
}

abbrev post_gauge : Request
post_gauge = ask (0 ∷ 7 ∷ []) []

abbrev post_counter : Request
post_counter = ask (1 ∷ 3 ∷ []) []

first_forwarded : extract_ip toy_libs.split_host_port post_gauge ≡ "10.0.0.7"
unfolding extract_ip lookup
first_forwarded = refl

-- A metric of an unknown type, which this json does not read, is a bad request.
rejected :
    (update_metric_json_handler handlers (ask (0 ∷ []) []) world new_response).1.status ≡ some 400
unfolding update_metric_json_handler insert
rejected = refl

three : (handlers.storage.get_counter "n" new_mem_storage).0 ≡ 0
unfolding mem_storage Memory.get_counter lookup new_mem_storage
three = refl

encodes_total :
    toy_json.encode_metric
      (counter_n (add64 (handlers.storage.get_counter "n" new_mem_storage).0 3))
    ≡ some (1 ∷ add64 (handlers.storage.get_counter "n" new_mem_storage).0 3 ∷ [])
encodes_total = refl

abbrev path_gauge : Request
path_gauge = ask [] (("type", "gauge") ∷ ("name", "a") ∷ ("value", "1.5") ∷ [])

abbrev path_counter : Request
path_counter = ask [] (("type", "counter") ∷ ("name", "n") ∷ ("value", "-2") ∷ [])

param_gauge : url_param "type" path_gauge ≡ "gauge"
unfolding get_header lookup
param_gauge = refl

param_counter : url_param "type" path_counter ≡ "counter"
unfolding get_header lookup
param_counter = refl

parsed_gauge : toy_libs.parse_float (url_param "value" path_gauge) ≡ some 4609434218613702656
unfolding get_header lookup
parsed_gauge = refl

parsed_counter : parse_int (text (url_param "value" path_counter)) ≡ some 18446744073709551614
unfolding parse_int get_header lookup
parsed_counter = refl

-- The text of the counter is "-2".
minus_two :
    (value_handler handlers path_counter
      (update_handler_chi handlers path_counter world new_response).0
      new_response).1.body
    ≡ text "-2"
unfolding value_handler update_handler_chi mem_storage Memory.update_counter Memory.get_counter
    new_mem_storage add64 insert lookup parse_int format_int digits get_header
minus_two = refl

abbrev post_batch : Request
post_batch = ask (0 ∷ 7 ∷ 1 ∷ 3 ∷ []) []

batch_update_metrics-succeeds_iff_example :
    ((batch_update_metrics handlers post_batch world new_response).1.status ≡ some 200)
    ↔ IsBatch (decode_body handlers post_batch)
batch_update_metrics-succeeds_iff_example =
    batch_update_metrics-succeeds_iff listed "k" toy_libs post_batch world

batch_decoded : decode_body handlers post_batch ≡ some (gauge_a 7 ∷ counter_n 3 ∷ [])
unfolding decode_body lookup
batch_decoded = refl

-- A json that reads every body as one gauge in front of a histogram.
abbrev odd_libs : Libs
odd_libs = record toy_libs {
  json = record toy_json { read_metrics = λ b. some (gauge_a 9 ∷ histogram_h ∷ []) };
}

odd_decoded :
    decode_body (mem_handlers listed "k" odd_libs) post_batch ≡ some (gauge_a 9 ∷ histogram_h ∷ [])
unfolding decode_body lookup
odd_decoded = refl

-- The root page, and what is answered where the template does not parse.
root_page : (root_handler handlers post_gauge world new_response).1.status ≡ some 200
unfolding root_handler lookup insert
root_page = refl

no_template :
    (root_handler
      (record handlers { libs = record toy_libs { parse_template = λ t. none } })
      post_gauge
      world
      new_response).1.status
    ≡ some 500
unfolding root_handler lookup insert
no_template = refl
