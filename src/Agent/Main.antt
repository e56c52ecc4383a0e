-- ===== src/Agent/Main.antt =====
-- cmd/agent/main.go: the goroutines of the agent in HTTP mode as a step relation, and the reporter of
-- the gRPC mode. The goroutines are the two pollers, the reporter and the workers; they share the
-- collector, the channel of jobs and the contexts.
pub mod Accounts
pub mod Invariant
pub mod Loss
pub mod Measure
pub mod Exit
pub mod Shutdown
mod Tests
use Prim.Native.String
use study_project_metrics_an.Base.{
  ℕ, zero, suc, String, ◌+◌, ◌*◌, ◌≤◌, ◌<◌, ◌≡◌, Bool, true, false, Option, none, some, List, [],
  ◌∷◌, ◌++◌, length, if◌then◌else◌, ◌==◌,
}
use study_project_metrics_an.Model.{Float64, Metrics}
use study_project_metrics_an.Storage.Memory.{Visit}
use study_project_metrics_an.Agent.Collector
use study_project_metrics_an.Agent.Collector.{
  Collector, MemStats, update_metrics, update_gopsutil_metrics, get_all_metrics,
}
use study_project_metrics_an.Grpc
use study_project_metrics_an.Grpc.{Metric}
use study_project_metrics_an.Config.{behind}

abbrev has_prefix : String → String → Bool
has_prefix p s = elim (behind p s) [ none ↦ false | some rest ↦ true ]

unfoldable pub server_url : String → String
server_url address =
    if has_prefix "http://" address
    then address
    else if has_prefix "https://" address
    then address
    else String.◌++◌ "http://" address

-- In seconds.
abbrev pub drain_timeout : ℕ
drain_timeout = 30

-- The reporter in its loop, sending a snapshot that it took at a tick or at the end, or back.
pub data Reporter : Type 0 where
  waiting : Reporter
  dispatching : List Metrics → Reporter
  flushing : List Metrics → Reporter
  finished : Reporter

-- Which context a worker passes to SendMetric.
pub data SendContext : Type 0 where
  main_context drain_context : SendContext

pub data Worker : Type 0 where
  idle : Worker
  received : Metrics → Worker
  sending : SendContext → Metrics → Worker
  stopped : Worker

-- `cancelled` says that the signal has come, `elapsed` counts the seconds since the start. The last
-- three record what happened: the metrics of all snapshots, those for which SendMetric has
-- returned, and those that the reporter gave up.
pub record Agent : Type 0 where
  pub collector : Collector
  pub polling : Bool
  pub gopsutil : Bool
  pub reporter : Reporter
  pub jobs : List Metrics
  pub closed : Bool
  pub workers : List Worker
  pub cancelled : Bool
  pub elapsed : ℕ
  pub taken : List Metrics
  pub handled : List Metrics
  pub lost : List Metrics

abbrev pub idle_workers : ℕ → List Worker
idle_workers zero = []
idle_workers (suc n) = idle ∷ idle_workers n

-- The start, with `rate_limit` workers.
unfoldable pub start : ℕ → Collector → Agent
start rate_limit c = record {
  collector = c;
  polling = true;
  gopsutil = true;
  reporter = waiting;
  jobs = [];
  closed = false;
  workers = idle_workers rate_limit;
  cancelled = false;
  elapsed = 0;
  taken = [];
  handled = [];
  lost = [];
}

abbrev pub capacity : ℕ → ℕ
capacity rate_limit = rate_limit * 2

-- The first tick of a snapshot that is empty sends nothing.
abbrev pub dispatch_of : List Metrics → Reporter
dispatch_of [] = waiting
dispatch_of (m ∷ ms) = dispatching (m ∷ ms)

abbrev pub context_of : Bool → SendContext
context_of false = main_context
context_of true = drain_context

-- One step of one goroutine, of the clock or of the signal. A `select` with two ready cases takes
-- either, and a send on a channel is ready while there is room.
pub data Step (visit : Visit) (rate_limit : ℕ) (s : Agent) : Agent → Type 0 where
  pass : Step visit rate_limit s (record s { elapsed = suc s.elapsed })
  cancel : Step visit rate_limit s (record s { cancelled = true })
  poll :
      (m : MemStats) (random_value : Float64)
      → s.polling ≡ true
      → Step visit rate_limit s (record s { collector = update_metrics m random_value s.collector })
  poll_gopsutil :
      (cpu_name : ℕ → String) (memory : Option (Float64 × Float64)) (percs : Option (List Float64))
      → s.gopsutil ≡ true
      → Step visit rate_limit s
          (record s { collector = update_gopsutil_metrics cpu_name memory percs s.collector })
  stop_polling :
      s.polling ≡ true → s.cancelled ≡ true → Step visit rate_limit s (record s { polling = false })
  stop_gopsutil :
      s.gopsutil ≡ true
      → s.cancelled ≡ true
      → Step visit rate_limit s (record s { gopsutil = false })
  tick :
      s.reporter ≡ waiting
      → Step visit rate_limit s (record s {
        reporter = dispatch_of (get_all_metrics visit s.collector);
        taken = s.taken ++ get_all_metrics visit s.collector;
      })
  put :
      (m : Metrics) (ms : List Metrics)
      → s.reporter ≡ dispatching (m ∷ ms)
      → length s.jobs < capacity rate_limit
      → Step visit rate_limit s (record s { reporter = dispatching ms; jobs = s.jobs ++ (m ∷ []) })
  dispatched :
      s.reporter ≡ dispatching [] → Step visit rate_limit s (record s { reporter = waiting })
  abandon :
      (m : Metrics) (ms : List Metrics)
      → s.reporter ≡ dispatching (m ∷ ms)
      → s.cancelled ≡ true
      → Step visit rate_limit s
          (record s { reporter = finished; closed = true; lost = s.lost ++ (m ∷ ms) })
  flush :
      s.reporter ≡ waiting
      → s.cancelled ≡ true
      → Step visit rate_limit s (record s {
        reporter = flushing (get_all_metrics visit s.collector);
        taken = s.taken ++ get_all_metrics visit s.collector;
      })
  flush_put :
      (m : Metrics) (ms : List Metrics)
      → s.reporter ≡ flushing (m ∷ ms)
      → length s.jobs < capacity rate_limit
      → Step visit rate_limit s (record s { reporter = flushing ms; jobs = s.jobs ++ (m ∷ []) })
  flush_abandon :
      (m : Metrics) (ms : List Metrics)
      → s.reporter ≡ flushing (m ∷ ms)
      → drain_timeout ≤ s.elapsed
      → Step visit rate_limit s
          (record s { reporter = finished; closed = true; lost = s.lost ++ (m ∷ ms) })
  flushed :
      s.reporter ≡ flushing []
      → Step visit rate_limit s (record s { reporter = finished; closed = true })
  receive :
      (before after : List Worker) (m : Metrics) (rest : List Metrics)
      → s.workers ≡ before ++ (idle ∷ after)
      → s.jobs ≡ m ∷ rest
      → Step visit rate_limit s (record s { jobs = rest; workers = before ++ (received m ∷ after) })
  choose :
      (before after : List Worker) (m : Metrics)
      → s.workers ≡ before ++ (received m ∷ after)
      → Step visit rate_limit s
          (record s { workers = before ++ (sending (context_of s.cancelled) m ∷ after) })
  send :
      (before after : List Worker) (context : SendContext) (m : Metrics)
      → s.workers ≡ before ++ (sending context m ∷ after)
      → Step visit rate_limit s
          (record s { workers = before ++ (idle ∷ after); handled = s.handled ++ (m ∷ []) })
  stop :
      (before after : List Worker)
      → s.workers ≡ before ++ (idle ∷ after)
      → s.jobs ≡ []
      → s.closed ≡ true
      → Step visit rate_limit s (record s { workers = before ++ (stopped ∷ after) })

pub data Reach (visit : Visit) (rate_limit : ℕ) (c : Collector) : Agent → Type 0 where
  here : Reach visit rate_limit c (start rate_limit c)
  next :
      {s t : Agent}
      → Reach visit rate_limit c s
      → Step visit rate_limit s t
      → Reach visit rate_limit c t

-- The gRPC reporter at a tick, and at the end; `call` sends a batch.
unfoldable pub grpc_tick :
    {N E : Type 0}
    → Visit
    → (List String → List Metric → N → N × Option E)
    → String
    → Collector
    → N
    → N × Option E
grpc_tick visit call local_ip c n = elim (get_all_metrics visit c) [
  | [] ↦ (n, none)
  | m ∷ ms ↦ Grpc.send_batch call local_ip (m ∷ ms) n
]

unfoldable pub grpc_flush :
    {N E : Type 0}
    → Visit
    → (List String → List Metric → N → N × Option E)
    → String
    → Collector
    → N
    → N × Option E
grpc_flush visit call local_ip c n = Grpc.send_batch call local_ip (get_all_metrics visit c) n
