-- ===== src/Handler/Batch.antt =====
-- POST /updates over the in-memory storage: when a batch is accepted, and what a refused one leaves.
use Prim.Native.String
use study_project_metrics_an.Base.{
  String, ◌≡◌, refl, ◌↔◌, Option, none, some, List, [], ◌∷◌, ◌++◌, map, arith, All,
}
use study_project_metrics_an.Model.{Metrics}
use study_project_metrics_an.Http.{Request, new_response, http_error, write_header}
use study_project_metrics_an.Storage.Memory.{MetricsStorage, Visit, mem_storage, batch_update}
use study_project_metrics_an.Storage.Memory.Batch.{
  IsKnown, IsUnknown, batch_update-stops, batch_update-succeeds_iff,
}
use study_project_metrics_an.Handler.{
  World, Handlers, Libs, notify_audit, decode_body, apply_batch, batch_update_metrics,
}

-- The handlers of a server with no database and no synchronous file.
abbrev pub mem_handlers : Visit → String → Libs → Handlers MetricsStorage
mem_handlers visit key libs = record { storage = mem_storage visit; key = key; libs = libs }

-- A decoded batch that the server takes: not empty, and of known types.
abbrev pub IsBatch : Option (List Metrics) → Type 0
IsBatch none = ⊥
IsBatch (some []) = ⊥
IsBatch (some (x ∷ xs)) = All IsKnown (x ∷ xs)

module _ (visit : Visit) (key : String) (libs : Libs) (r : Request)
    (world : World MetricsStorage) where
  apply_batch-succeeds_iff :
      (x : Metrics) (xs : List Metrics)
      → ((apply_batch (mem_handlers visit key libs) (x ∷ xs) r world new_response).1.status
          ≡ some 200)
        ↔ ((batch_update (x ∷ xs) world.store).1 ≡ none)
  unfolding apply_batch mem_storage
  apply_batch-succeeds_iff x xs = ground arith

  IsBatch-decoded :
      (o : Option (List Metrics))
      → decode_body (mem_handlers visit key libs) r ≡ o
      → ((batch_update_metrics (mem_handlers visit key libs) r world new_response).1.status
          ≡ some 200)
        ↔ IsBatch o
  unfolding batch_update_metrics
  IsBatch-decoded none e = rw (e, batch_update_metrics) (ground arith)
  IsBatch-decoded (some []) e = rw (e, batch_update_metrics) (unfold apply_batch in ground arith)
  IsBatch-decoded (some (x ∷ xs)) e =
      let (to, from) = apply_batch-succeeds_iff x xs in
      let (known, succeeds) = batch_update-succeeds_iff (x ∷ xs) world.store in
      rw (e, batch_update_metrics) (λ p. known (to p), λ p. from (succeeds p))

  -- Of a server whose storage is in memory: a batch request is answered with 200 exactly when its body
  -- decodes to a list that is not empty and holds only gauges and counters.
  pub batch_update_metrics-succeeds_iff :
      ((batch_update_metrics (mem_handlers visit key libs) r world new_response).1.status
        ≡ some 200)
      ↔ IsBatch (decode_body (mem_handlers visit key libs) r)
  batch_update_metrics-succeeds_iff =
      IsBatch-decoded (decode_body (mem_handlers visit key libs) r) refl

  -- A batch request is not atomic: one whose batch holds an unknown type behind metrics of known
  -- types is answered with 500 and queues no audit event, and leaves those metrics applied.
  pub batch_update_metrics-stops :
      (x : Metrics) (xs ys : List Metrics) (bad : Metrics)
      → decode_body (mem_handlers visit key libs) r ≡ some ((x ∷ xs) ++ bad ∷ ys)
      → All IsKnown (x ∷ xs)
      → IsUnknown bad
      → batch_update_metrics (mem_handlers visit key libs) r world new_response ≡ (
        record world { store = (batch_update (x ∷ xs) world.store).0 },
        http_error (String.◌++◌ "unknown metric type: " bad.mtype) 500 new_response,
      )
  unfolding batch_update_metrics apply_batch mem_storage
  batch_update_metrics-stops x xs ys bad e known unknown =
      rw (e, batch_update_metrics)
        (rw (batch_update-stops (x ∷ xs) ys bad world.store known unknown, apply_batch)
          (rw (batch_update-stops (x ∷ xs) ys bad world.store known unknown)))

  -- A batch of known types that is not empty is applied and answered with 200, and queues one audit
  -- event that names its metrics in their order.
  pub batch_update_metrics-known :
      (x : Metrics) (xs : List Metrics)
      → decode_body (mem_handlers visit key libs) r ≡ some (x ∷ xs)
      → All IsKnown (x ∷ xs)
      → batch_update_metrics (mem_handlers visit key libs) r world new_response ≡ (
        notify_audit
            (mem_handlers visit key libs)
            r
            (map (λ m. m.id) (x ∷ xs))
            (record world { store = (batch_update (x ∷ xs) world.store).0 }),
        write_header 200 new_response,
      )
  unfolding batch_update_metrics apply_batch mem_storage
  batch_update_metrics-known x xs e known =
      let fine = (batch_update-succeeds_iff (x ∷ xs) world.store).1 known in
      rw (e, batch_update_metrics) (rw (fine, apply_batch))
