-- ===== src/Agent/Main/Measure.antt =====
-- How far the agent is from its end.
use study_project_metrics_an.Base.{
  ℕ, suc, ◌+◌, ◌*◌, ◌≤◌, ◌<◌, ◌≡◌, refl, Bool, true, false, List, [], ◌∷◌, ◌++◌, length,
  length-append, arith,
}
use study_project_metrics_an.Storage.Memory.{Visit}
use study_project_metrics_an.Agent.Collector.{Collector, get_all_metrics}
use study_project_metrics_an.Agent.Main.{
  Reporter, waiting, dispatching, flushing, finished, Worker, idle, received, sending, stopped,
  context_of, Agent, Step, pass, cancel, poll, poll_gopsutil, stop_polling, stop_gopsutil, tick,
  put, dispatched, abandon, flush, flush_put, flush_abandon, flushed, receive, choose, send, stop,
}

-- What is left to do: a bound of the steps that lead on.
abbrev pub work : Worker → ℕ
work stopped = 0
work idle = 1
work (sending c m) = 2
work (received m) = 3

abbrev pub workload : List Worker → ℕ
workload [] = 0
workload (x ∷ xs) = work x + workload xs

abbrev pub to_report : Visit → Collector → Reporter → ℕ
to_report visit c finished = 0
to_report visit c (flushing ms) = 1 + 5 * length ms
to_report visit c waiting = 2 + 5 * length (get_all_metrics visit c)
to_report visit c (dispatching ms) = 3 + 5 * length (get_all_metrics visit c) + 5 * length ms

abbrev pub to_poll : Bool → ℕ
to_poll true = 1
to_poll false = 0

abbrev pub remaining : Visit → Agent → ℕ
remaining visit s =
    to_poll s.polling
    + to_poll s.gopsutil
    + to_report visit s.collector s.reporter
    + 4 * length s.jobs
    + workload s.workers

pub workload-mid :
    (before after : List Worker) (x : Worker)
    → workload (before ++ (x ∷ after)) ≡ workload before + work x + workload after
workload-mid [] after x = omega arith
workload-mid (y ∷ before) after x = omega (arith, workload-mid before after x)

-- Steps of the clock and of the signal, which take nothing of what is left; steps that start new work, a
-- poll or a snapshot at a tick; and steps that do some of the work.
pub data Sort : Type 0 where
  outer starting working : Sort

module _ {visit : Visit} {rate_limit : ℕ} where
  abbrev pub sort : {s t : Agent} → Step visit rate_limit s t → Sort
  sort pass = outer
  sort cancel = outer
  sort (poll m r p) = starting
  sort (poll_gopsutil n m p q) = starting
  sort (tick e) = starting
  sort _ = working

  step-outer :
      {s t : Agent} (step : Step visit rate_limit s t)
      → sort step ≡ outer
      → remaining visit t ≡ remaining visit s
  step-outer pass h = refl
  step-outer cancel h = refl
  step-outer _ h = absurd cc

  step-working :
      {s t : Agent} (step : Step visit rate_limit s t)
      → sort step ≡ working
      → remaining visit t < remaining visit s
  step-working {s} (stop_polling p c) h = ground arith
  step-working {s} (stop_gopsutil p c) h = ground arith
  step-working {s} (put m ms e r) h = ground (arith, length-append s.jobs (m ∷ []))
  step-working {s} (dispatched e) h = ground arith
  step-working {s} (abandon m ms e c) h = ground arith
  step-working {s} (flush e c) h = ground arith
  step-working {s} (flush_put m ms e r) h = ground (arith, length-append s.jobs (m ∷ []))
  step-working {s} (flush_abandon m ms e d) h = ground arith
  step-working {s} (flushed e) h = ground arith
  step-working {s} (receive before after m rest e j) h =
      ground (arith, workload-mid before after idle, workload-mid before after (received m))
  step-working {s} (choose before after m e) h = ground (
    arith,
    workload-mid before after (received m),
    workload-mid before after (sending (context_of s.cancelled) m),
  )
  step-working {s} (send before after c m e) h =
      ground (arith, workload-mid before after (sending c m), workload-mid before after idle)
  step-working {s} (stop before after e j c) h =
      ground (arith, workload-mid before after idle, workload-mid before after stopped)
  step-working _ h = absurd cc

-- A run in which nothing new is started, with the number of its steps that do some of the work.
pub data Work (visit : Visit) (rate_limit : ℕ) : ℕ → Agent → Agent → Type 0 where
  ended : (s : Agent) → Work visit rate_limit 0 s s
  outside :
      {n : ℕ} {s t u : Agent} (step : Step visit rate_limit s t)
      → sort step ≡ outer
      → Work visit rate_limit n t u
      → Work visit rate_limit n s u
  forward :
      {n : ℕ} {s t u : Agent} (step : Step visit rate_limit s t)
      → sort step ≡ working
      → Work visit rate_limit n t u
      → Work visit rate_limit (suc n) s u

-- The agent cannot work for ever: from any state, in whatever order the goroutines move, a run in
-- which no metric is polled and no snapshot is taken at a tick has at most as many steps as the
-- state has left, that is 5 for each metric of the collector and of a snapshot that is being sent, 4 for each
-- job in the channel, at most 3 for each worker, and 5 more.
pub remaining-bounds :
    {visit : Visit} {rate_limit n : ℕ} {s t : Agent}
    → Work visit rate_limit n s t
    → n + remaining visit t ≤ remaining visit s
remaining-bounds (ended s) = omega arith
remaining-bounds (outside step e w) = omega (arith, step-outer step e, remaining-bounds w)
remaining-bounds (forward step e w) = omega (arith, step-working step e, remaining-bounds w)
