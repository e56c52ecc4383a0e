-- ===== src/Handler/Update.antt =====
-- What the two single-metric update handlers do, on success and on error.
use study_project_metrics_an.Base.{◌≡◌, ◌⊎◌, none, some, [], ◌∷◌, arith, eq_iff, eq_refl}
use study_project_metrics_an.Base.Int64.{Int64, add64}
use study_project_metrics_an.Model.{
  Float64, Metrics, type_counter, type_gauge, counter-false_of_gauge,
}
use study_project_metrics_an.Wire.{Bytes}
use study_project_metrics_an.Http.{Request, new_response, set_header}
use study_project_metrics_an.Storage.{IsLawful}
use study_project_metrics_an.Handler.{
  World, Handlers, url_param, notify_audit, write_signed_response, respond_metric, update_stored,
  update_metric_json_handler, update_handler_chi,
}

module _ {S : Type 0} (h : Handlers S) (r : Request) (world : World S) where
  -- A JSON update that is answered with 400 has changed nothing: neither the storage nor the audit
  -- queue.
  pub update_metric_json-rejected :
      (update_metric_json_handler h r world new_response).1.status ≡ some 400
      → (update_metric_json_handler h r world new_response).0 ≡ world
  unfolding update_metric_json_handler
  update_metric_json-rejected e = ground arith

  -- An update by path is answered with 200, with the audit event for its metric, or with 400 and
  -- nothing changed.
  pub update_handler_chi-outcome :
      (((update_handler_chi h r world new_response).1.status ≡ some 200)
        × ((update_handler_chi h r world new_response).0.audit
            ≡ (notify_audit h r (url_param "name" r ∷ []) world).audit))
      ⊎ (((update_handler_chi h r world new_response).1.status ≡ some 400)
          × ((update_handler_chi h r world new_response).0 ≡ world))
  unfolding update_handler_chi
  update_handler_chi-outcome = ground arith

  module _ (lawful : IsLawful h.storage) (x : Metrics)
      (decoded : h.libs.json.read_metric r.body ≡ some x) where
    update_stored-gauge :
        (v : Float64)
        → x.mtype ≡ type_gauge
        → x.value ≡ some v
        → update_stored h x world.store new_response
          ≡ (h.storage.update_gauge x.id v world.store, x, none)
    unfolding update_stored
    update_stored-gauge v t e =
        ground (
          arith,
          eq_iff x.mtype type_gauge,
          lawful.gauge_gauge x.id x.id v world.store,
          eq_refl x.id,
        )

    update_stored-counter :
        (d : Int64)
        → x.mtype ≡ type_counter
        → x.delta ≡ some d
        → update_stored h x world.store new_response ≡ (
          h.storage.update_counter x.id d world.store,
          record x { delta = some (add64 (h.storage.get_counter x.id world.store).0 d) },
          none,
        )
    unfolding update_stored
    update_stored-counter d t e = ground (
      arith,
      eq_iff x.mtype type_counter,
      counter-false_of_gauge x.mtype,
      lawful.counter_counter x.id x.id d world.store,
      eq_refl x.id,
    )

    -- A JSON update of a gauge over a lawful storage sets it, queues one audit event for it and
    -- answers 200 with the signed encoding of the metric that was sent.
    pub update_metric_json-gauge :
        (v : Float64) (body : Bytes)
        → x.mtype ≡ type_gauge
        → x.value ≡ some v
        → h.libs.json.encode_metric x ≡ some body
        → update_metric_json_handler h r world new_response ≡ (
          notify_audit h r
              (x.id ∷ [])
              (record world { store = h.storage.update_gauge x.id v world.store }),
          write_signed_response h body (set_header "Content-Type" "application/json" new_response),
        )
    unfolding update_metric_json_handler
    update_metric_json-gauge v body t e encoded =
        rw (decoded, update_metric_json_handler)
          (rw (update_stored-gauge v t e, update_metric_json_handler)
            (rw (update_stored-gauge v t e) (rw (encoded, respond_metric))))

    -- A JSON update of a counter over a lawful storage adds the delta, queues one audit event for it
    -- and answers 200 with the signed encoding of the metric, its delta replaced by the new total:
    -- what the counter read before, or 0, plus the delta, modulo 2 ^ 64.
    pub update_metric_json-counter :
        (d : Int64) (body : Bytes)
        → x.mtype ≡ type_counter
        → x.delta ≡ some d
        → h.libs.json.encode_metric
            (record x { delta = some (add64 (h.storage.get_counter x.id world.store).0 d) })
          ≡ some body
        → update_metric_json_handler h r world new_response ≡ (
          notify_audit h r
              (x.id ∷ [])
              (record world { store = h.storage.update_counter x.id d world.store }),
          write_signed_response h body (set_header "Content-Type" "application/json" new_response),
        )
    unfolding update_metric_json_handler
    update_metric_json-counter d body t e encoded =
        rw (decoded, update_metric_json_handler)
          (rw (update_stored-counter d t e, update_metric_json_handler)
            (rw (update_stored-counter d t e) (rw (encoded, respond_metric))))
