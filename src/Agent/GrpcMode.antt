-- ===== src/Agent/GrpcMode.antt =====
-- run() of cmd/agent/main.go in gRPC mode: the pollers and the one reporter, which hands its snapshots
-- to SendBatch itself.
pub mod Batches
mod Tests
use study_project_metrics_an.Base.{ℕ, ◌≡◌, Bool, true, false, Option, List, [], ◌∷◌, ◌++◌, String}
use study_project_metrics_an.Model.{Float64, Metrics}
use study_project_metrics_an.Storage.Memory.{Visit}
use study_project_metrics_an.Agent.Collector.{
  Collector, MemStats, update_metrics, update_gopsutil_metrics, get_all_metrics,
}

-- The reporter in its loop, in SendBatch at a tick or at the end, or back.
pub data Reporter : Type 0 where
  waiting : Reporter
  sending : List Metrics → Reporter
  flushing : List Metrics → Reporter
  finished : Reporter

-- `batches` are those for which SendBatch has returned, with or without an error, in order.
pub record Agent : Type 0 where
  pub collector : Collector
  pub polling : Bool
  pub gopsutil : Bool
  pub reporter : Reporter
  pub cancelled : Bool
  pub batches : List (List Metrics)

abbrev pub start : Collector → Agent
start c = record {
  collector = c;
  polling = true;
  gopsutil = true;
  reporter = waiting;
  cancelled = false;
  batches = [];
}

-- A tick with an empty snapshot changes nothing.
pub data Step (visit : Visit) (s : Agent) : Agent → Type 0 where
  cancel : Step visit s (record s { cancelled = true })
  poll :
      (m : MemStats) (random_value : Float64)
      → s.polling ≡ true
      → Step visit s (record s { collector = update_metrics m random_value s.collector })
  poll_gopsutil :
      (cpu_name : ℕ → String) (memory : Option (Float64 × Float64)) (percs : Option (List Float64))
      → s.gopsutil ≡ true
      → Step visit s
          (record s { collector = update_gopsutil_metrics cpu_name memory percs s.collector })
  stop_polling : s.polling ≡ true → s.cancelled ≡ true → Step visit s (record s { polling = false })
  stop_gopsutil :
      s.gopsutil ≡ true → s.cancelled ≡ true → Step visit s (record s { gopsutil = false })
  tick_empty : s.reporter ≡ waiting → get_all_metrics visit s.collector ≡ [] → Step visit s s
  tick :
      (m : Metrics) (ms : List Metrics)
      → s.reporter ≡ waiting
      → get_all_metrics visit s.collector ≡ m ∷ ms
      → Step visit s (record s { reporter = sending (m ∷ ms) })
  sent :
      (ms : List Metrics)
      → s.reporter ≡ sending ms
      → Step visit s (record s { reporter = waiting; batches = s.batches ++ (ms ∷ []) })
  flush :
      s.reporter ≡ waiting
      → s.cancelled ≡ true
      → Step visit s (record s { reporter = flushing (get_all_metrics visit s.collector) })
  flushed :
      (ms : List Metrics)
      → s.reporter ≡ flushing ms
      → Step visit s (record s { reporter = finished; batches = s.batches ++ (ms ∷ []) })

pub data Reach (visit : Visit) (c : Collector) : Agent → Type 0 where
  here : Reach visit c (start c)
  next : {s t : Agent} → Reach visit c s → Step visit s t → Reach visit c t

-- A run from one state to another.
pub data Run (visit : Visit) : Agent → Agent → Type 0 where
  rest : (s : Agent) → Run visit s s
  then : {s t u : Agent} → Step visit s t → Run visit t u → Run visit s u

-- wg.Wait returns.
pub record IsDone (s : Agent) : Type 0 where
  pub polled : s.polling ≡ false
  pub gopsutil_polled : s.gopsutil ≡ false
  pub reported : s.reporter ≡ finished
