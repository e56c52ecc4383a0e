-- ===== src/Handler/Client.antt =====
-- What a client that writes by path reads back by path.
use study_project_metrics_an.Base.{◌≡◌, none, some, arith, eq_iff, eq_refl}
use study_project_metrics_an.Base.Int64.{Int64, add64}
use study_project_metrics_an.Model.{Float64, type_gauge, type_counter, counter-false_of_gauge}
use study_project_metrics_an.Wire.{Bytes, text}
use study_project_metrics_an.Strconv.{parse_int, format_int}
use study_project_metrics_an.Http.{Request, Response, new_response}
use study_project_metrics_an.Storage.{IsLawful}
use study_project_metrics_an.Handler.{World, Handlers, url_param, update_handler_chi, value_handler}

-- The answer of a value request: 200 and a text.
abbrev pub IsAnswer : Bytes → Response → Type 0
IsAnswer body w = (w.status ≡ some 200) × (w.body ≡ body)

module _ {S : Type 0} (h : Handlers S) (r : Request) (world : World S) where
  store-update_gauge :
      (v : Float64)
      → url_param "type" r ≡ type_gauge
      → h.libs.parse_float (url_param "value" r) ≡ some v
      → (update_handler_chi h r world new_response).0.store
        ≡ h.storage.update_gauge (url_param "name" r) v world.store
  unfolding update_handler_chi
  store-update_gauge v t parsed = ground (arith, eq_iff (url_param "type" r) type_gauge)

  store-update_counter :
      (d : Int64)
      → url_param "type" r ≡ type_counter
      → parse_int (text (url_param "value" r)) ≡ some d
      → (update_handler_chi h r world new_response).0.store
        ≡ h.storage.update_counter (url_param "name" r) d world.store
  unfolding update_handler_chi
  store-update_counter d t parsed =
      ground (
        arith,
        eq_iff (url_param "type" r) type_counter,
        counter-false_of_gauge (url_param "type" r),
      )

  value_handler-gauge :
      (v : Float64)
      → url_param "type" r ≡ type_gauge
      → h.storage.get_gauge (url_param "name" r) world.store ≡ (v, none)
      → IsAnswer (h.libs.format_float v) (value_handler h r world new_response).1
  unfolding value_handler
  value_handler-gauge v t e = ground (arith, eq_iff (url_param "type" r) type_gauge)

  value_handler-counter :
      (v : Int64)
      → url_param "type" r ≡ type_counter
      → h.storage.get_counter (url_param "name" r) world.store ≡ (v, none)
      → IsAnswer (format_int v) (value_handler h r world new_response).1
  unfolding value_handler
  value_handler-counter v t e =
      ground (
        arith,
        eq_iff (url_param "type" r) type_counter,
        counter-false_of_gauge (url_param "type" r),
      )

module _ {S : Type 0} (h : Handlers S) (lawful : IsLawful h.storage) (world : World S)
    (post get : Request) (name : url_param "name" get ≡ url_param "name" post) where
  -- Over a lawful storage, a gauge that was posted by path is answered with the text of the value
  -- that was parsed.
  pub value-update_gauge :
      (v : Float64)
      → url_param "type" post ≡ type_gauge
      → url_param "type" get ≡ type_gauge
      → h.libs.parse_float (url_param "value" post) ≡ some v
      → IsAnswer
          (h.libs.format_float v)
          (value_handler h get (update_handler_chi h post world new_response).0 new_response).1
  value-update_gauge v tp tg parsed =
      value_handler-gauge h get (update_handler_chi h post world new_response).0 v tg
        (rw (store-update_gauge h post world v tp parsed, name) (rw (lawful.gauge_gauge, eq_refl)))

  -- Over a lawful storage, a counter that was posted by path is answered with the decimal text of
  -- what it read before, or 0, plus the delta that was posted, modulo 2 ^ 64.
  pub value-update_counter :
      (d : Int64)
      → url_param "type" post ≡ type_counter
      → url_param "type" get ≡ type_counter
      → parse_int (text (url_param "value" post)) ≡ some d
      → IsAnswer
          (format_int (add64 (h.storage.get_counter (url_param "name" post) world.store).0 d))
          (value_handler h get (update_handler_chi h post world new_response).0 new_response).1
  value-update_counter d tp tg parsed =
      value_handler-counter h get (update_handler_chi h post world new_response).0
        (add64 (h.storage.get_counter (url_param "name" post) world.store).0 d) tg
        (rw (store-update_counter h post world d tp parsed, name)
          (rw (lawful.counter_counter, eq_refl)))
