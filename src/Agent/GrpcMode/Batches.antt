-- ===== src/Agent/GrpcMode/Batches.antt =====
-- What SendBatch gets in gRPC mode, and how the agent ends.
use study_project_metrics_an.Base.{◌≡◌, ◌≢◌, refl, Bool, true, List, [], ◌∷◌, ◌++◌, All, All-append}
use study_project_metrics_an.Model.{Metrics}
use study_project_metrics_an.Storage.Memory.{Visit}
use study_project_metrics_an.Agent.Collector.{Collector, get_all_metrics}
use study_project_metrics_an.Agent.GrpcMode.{
  Reporter, waiting, sending, flushing, finished, Agent, Step, cancel, poll, poll_gopsutil,
  stop_polling, stop_gopsutil, tick_empty, tick, sent, flush, flushed, Reach, here, next,
}

abbrev pub IsFilled : List Metrics → Type 0
IsFilled ms = ms ≢ []

-- What the reporter has handed over, by where it stands.
abbrev pub IsReported : Reporter → Bool → List (List Metrics) → Type 0
IsReported waiting cancelled batches = All IsFilled batches
IsReported (sending ms) cancelled batches = All IsFilled batches × IsFilled ms
IsReported (flushing ms) cancelled batches = All IsFilled batches × (cancelled ≡ true)
IsReported finished cancelled batches =
    (front : List (List Metrics)) × (last : List Metrics) × (batches ≡ front ++ (last ∷ []))
    × All IsFilled front
    × (cancelled ≡ true)

IsReported-cancel :
    (r : Reporter) (cancelled : Bool) (batches : List (List Metrics))
    → IsReported r cancelled batches
    → IsReported r true batches
IsReported-cancel waiting cancelled batches i = i
IsReported-cancel (sending ms) cancelled batches i = i
IsReported-cancel (flushing ms) cancelled batches i = (i.0, refl)
IsReported-cancel finished cancelled batches (front, last, e, f, c) = (front, last, e, f, refl)

module _ {visit : Visit} where
  step-IsReported :
      {s t : Agent}
      → Step visit s t
      → IsReported s.reporter s.cancelled s.batches
      → IsReported t.reporter t.cancelled t.batches
  step-IsReported {s} cancel i = IsReported-cancel s.reporter s.cancelled s.batches i
  step-IsReported (poll m r p) i = i
  step-IsReported (poll_gopsutil n m p q) i = i
  step-IsReported (stop_polling p c) i = i
  step-IsReported (stop_gopsutil p c) i = i
  step-IsReported (tick_empty e n) i = i
  step-IsReported (tick m ms e n) i = (rw e at i, λ h. absurd cc)
  step-IsReported {s} (sent ms e) i =
      let (before, filled) : IsReported (sending ms) s.cancelled s.batches = rw e at i in
      All-append IsFilled s.batches (ms ∷ []) before (filled, tt)
  step-IsReported (flush e c) i = (rw e at i, c)
  step-IsReported {s} (flushed ms e) i =
      let (before, c) : IsReported (flushing ms) s.cancelled s.batches = rw e at i in
      (s.batches, ms, refl, before, c)

  -- In every state that the agent reaches, SendBatch has got no empty batch, but for the last one
  -- once the reporter has returned, which it does only after the signal.
  pub Reach-IsReported :
      (c : Collector) {s : Agent} → Reach visit c s → IsReported s.reporter s.cancelled s.batches
  Reach-IsReported c here = tt
  Reach-IsReported c (next r step) = step-IsReported step (Reach-IsReported c r)

module _ (visit : Visit) (c : Collector) where
  -- The last of these batches is the snapshot of a reporter that waited when the signal had come,
  -- and those before it are the ones that SendBatch had got until then.
  abbrev pub IsFlush : List (List Metrics) → Type 0
  IsFlush batches =
      (u : Agent) × Reach visit c u
      × (u.reporter ≡ waiting)
      × (u.cancelled ≡ true)
      × (batches ≡ u.batches ++ (get_all_metrics visit u.collector ∷ []))
      × All IsFilled u.batches

  abbrev HasFlush : Reporter → List (List Metrics) → Type 0
  HasFlush waiting batches = Unit
  HasFlush (sending ms) batches = Unit
  HasFlush (flushing ms) batches = IsFlush (batches ++ (ms ∷ []))
  HasFlush finished batches = IsFlush batches
