-- ===== src/Agent/Collector/Goroutines.antt =====
-- internal/agent/collector.go with its goroutines: the callers of AddMetric, the flushers and the
-- sendBatch goroutines that both start. The lock is held during the whole of an operation, sendBatch
-- with its posts and retries included, so that each is one step; they move in any order.
use study_project_metrics_an.Base.{
  ℕ, suc, ◌≡◌, ◌⊎◌, inl, inr, Bool, Option, List, [], ◌∷◌, ◌++◌, String, if◌then◌else◌,
}
use study_project_metrics_an.Model.{Metrics, Float64}
use study_project_metrics_an.Wire.{Json, Gzip}
use study_project_metrics_an.Agent.{Post, Net}
use study_project_metrics_an.Agent.Collector.{
  Collector, MemStats, TryError, update_metrics, update_gopsutil_metrics, add_metric, flush_tick,
  send_batch,
}

-- The posts that were answered, with the status of the answer, in order.
abbrev pub Log : Type 0
Log = List (Post × ℕ)

-- The network, with a record of the posts that it answers.
abbrev pub noted : {E : Type 0} → Post → E ⊎ ℕ → Log
noted post (inl e) = []
noted post (inr code) = (post, code) ∷ []

abbrev pub recorded : {N E : Type 0} → Net N E → Net (N × Log) E
recorded net = record {
  bad_url = net.bad_url;
  random = λ w. (((net.random w.0).0, w.1), (net.random w.0).1);
  client_do = λ post w.
      let answer = net.client_do post w.0 in ((answer.0, w.1 ++ noted post answer.1), answer.1);
  is_net_error = net.is_net_error;
}

-- `started` counts the sendBatch goroutines that have not got the lock yet.
pub record State (N : Type 0) : Type 0 where
  pub collector : Collector
  pub network : N
  pub flushers : ℕ
  pub started : ℕ

abbrev pub start : {N : Type 0} → Collector → N → State N
start c n = record { collector = c; network = n; flushers = 0; started = 0 }

abbrev pub go_send : Bool → ℕ → ℕ
go_send go n = if go then suc n else n

module _ {N E : Type 0} (json : Json) (gzip : Gzip) (net : Net N E) (timeout : E → Bool)
    (retry : (N → N × Option TryError) → N → N × Option TryError) where
  -- A step, with the metrics that it adds to the buffer.
  pub data Step (s : State N) : List Metrics → State N → Type 0 where
    poll :
        (m : MemStats) (random_value : Float64)
        → Step s [] (record s { collector = update_metrics m random_value s.collector })
    poll_gopsutil :
        (cpu_name : ℕ → String) (memory : Option (Float64 × Float64))
        (percs : Option (List Float64))
        → Step s []
            (record s { collector = update_gopsutil_metrics cpu_name memory percs s.collector })
    add :
        (m : Metrics)
        → Step s (m ∷ []) (record s {
          collector = (add_metric m s.collector).0;
          started = go_send (add_metric m s.collector).1 s.started;
        })
    start_flusher : Step s [] (record s { flushers = suc s.flushers })
    tick :
        (k : ℕ)
        → s.flushers ≡ suc k
        → Step s [] (record s { started = go_send (flush_tick s.collector) s.started })
    send :
        (k : ℕ)
        → s.started ≡ suc k
        → Step s [] (record s {
          collector = (send_batch json gzip net timeout retry s.collector s.network).0;
          network = (send_batch json gzip net timeout retry s.collector s.network).1;
          started = k;
        })

  -- The states that are reached, with all metrics that were added, in their order.
  pub data Reach (from : State N) : List Metrics → State N → Type 0 where
    here : Reach from [] from
    next :
        {s t : State N} {added ms : List Metrics}
        → Reach from added s
        → Step s ms t
        → Reach from (added ++ ms) t
