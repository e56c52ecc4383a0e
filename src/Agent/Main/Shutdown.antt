-- ===== src/Agent/Main/Shutdown.antt =====
-- The way from the signal to the end of all goroutines.
use native.Mathlib.Decide.{dec_lt}
use study_project_metrics_an.Base.{
  ℕ, zero, suc, ◌+◌, ◌≤◌, ◌<◌, ◌≡◌, refl, Bool, true, false, List, [], ◌∷◌, ◌++◌, length,
  length-append, arith, ◌⊎◌, inl, inr, ◌∙◌, ap,
}
use study_project_metrics_an.Model.{Metrics}
use study_project_metrics_an.Storage.Memory.{Visit}
use study_project_metrics_an.Agent.Collector.{Collector}
use study_project_metrics_an.Agent.Main.{
  Reporter, waiting, dispatching, flushing, finished, Worker, idle, received, sending, stopped,
  context_of, Agent, capacity, Step, cancel, stop_polling, stop_gopsutil, dispatched, abandon,
  flush, flush_put, flushed, receive, choose, send, stop, Reach, next,
}
use study_project_metrics_an.Agent.Main.Accounts.{in_hand, total, Reach-accounted}
use study_project_metrics_an.Agent.Main.Measure.{remaining, workload-mid}
use study_project_metrics_an.Agent.Main.Invariant.{
  is_finished, one_stopped, stopped_workers, IsSafe, step-IsSafe, Reach-IsSafe,
}

-- A run from one state to another.
pub data Run (visit : Visit) (rate_limit : ℕ) : Agent → Agent → Type 0 where
  rest : (s : Agent) → Run visit rate_limit s s
  then :
      {s t u : Agent}
      → Step visit rate_limit s t
      → Run visit rate_limit t u
      → Run visit rate_limit s u

pub Reach-Run :
    {visit : Visit} {rate_limit : ℕ} {c : Collector} {s t : Agent}
    → Reach visit rate_limit c s
    → Run visit rate_limit s t
    → Reach visit rate_limit c t
Reach-Run r (rest s) = r
Reach-Run r (then step run) = Reach-Run (next r step) run

-- wg.Wait returns.
pub record IsDone (s : Agent) : Type 0 where
  pub polled : s.polling ≡ false
  pub gopsutil_polled : s.gopsutil ≡ false
  pub reported : s.reporter ≡ finished
  pub worked : stopped_workers s.workers ≡ length s.workers

-- A worker that has not returned, where there is one.
abbrev Active : List Worker → Type 0
Active ws =
    (before : List Worker) × (after : List Worker) × (x : Worker) × (ws ≡ before ++ (x ∷ after))
    × (one_stopped x ≡ 0)

stopped_workers-le : (ws : List Worker) → stopped_workers ws ≤ length ws
stopped_workers-le [] = omega arith
stopped_workers-le (x ∷ xs) = ground (arith, stopped_workers-le xs)

Active-cons : (x : Worker) (xs : List Worker) → Active xs → Active (x ∷ xs)
Active-cons x xs (before, after, y, e, p) = (x ∷ before, after, y, ap (λ l. x ∷ l) e, p)

active : (ws : List Worker) → stopped_workers ws < length ws → Active ws
active [] h = absurd (omega arith)
active (stopped ∷ xs) h = Active-cons stopped xs (active xs (omega arith))
active (idle ∷ xs) h = ([], xs, idle, refl, refl)
active (received m ∷ xs) h = ([], xs, received m, refl, refl)
active (sending c m ∷ xs) h = ([], xs, sending c m, refl, refl)

module _ (visit : Visit) (rate_limit : ℕ) where
  -- A step that leaves less to do.
  abbrev Nearer : Agent → Type 0
  Nearer s =
      (t : Agent) × Step visit rate_limit s t
      × (remaining visit t < remaining visit s)
      × (t.cancelled ≡ true)

  nearer :
      {s : Agent} (t : Agent)
      → Step visit rate_limit s t
      → remaining visit t < remaining visit s
      → t.cancelled ≡ true
      → Nearer s
  nearer t step less c = (t, step, less, c)

  -- A worker that has not returned moves once there are jobs or the channel is closed.
  worker_moves :
      (s : Agent) (before after : List Worker) (x : Worker) (jobs : List Metrics)
      → s.workers ≡ before ++ (x ∷ after)
      → one_stopped x ≡ 0
      → s.jobs ≡ jobs
      → s.closed ≡ true ⊎ 0 < length jobs
      → s.cancelled ≡ true
      → Nearer s
  worker_moves s before after stopped jobs e a j go c = absurd (omega arith)
  worker_moves s before after (received m) jobs e a j go c =
      nearer _ (choose before after m e)
        (ground (
          arith,
          workload-mid before after (received m),
          workload-mid before after (sending (context_of s.cancelled) m),
        ))
        c
  worker_moves s before after (sending x m) jobs e a j go c =
      nearer _ (send before after x m e)
        (ground (arith, workload-mid before after (sending x m), workload-mid before after idle)) c
  worker_moves s before after idle [] e a j (inr k) c = absurd (omega arith)
  worker_moves s before after idle [] e a j (inl k) c =
      nearer _ (stop before after e j k)
        (ground (arith, workload-mid before after idle, workload-mid before after stopped)) c
  worker_moves s before after idle (m ∷ jobs) e a j go c =
      nearer _ (receive before after m jobs e j)
        (ground (arith, workload-mid before after idle, workload-mid before after (received m))) c

  module _ (some_worker : 0 < rate_limit) (s : Agent) (i : IsSafe rate_limit s)
      (c : s.cancelled ≡ true) where
    workers_move :
        s.closed ≡ true ⊎ 0 < length s.jobs
        → stopped_workers s.workers < length s.workers
        → Nearer s
    workers_move go h =
        let (before, after, x, e, a) = active s.workers h in
        worker_moves s before after x s.jobs e a refl go c

    flushing_moves : (m : Metrics) (ms : List Metrics) → s.reporter ≡ flushing (m ∷ ms) → Nearer s
    flushing_moves m ms e = elim (dec_lt (length s.jobs) (capacity rate_limit)) [
      | yes room ↦
          nearer _ (flush_put m ms e room) (ground (arith, length-append s.jobs (m ∷ []))) c
      | no full ↦ workers_move (inr (omega (arith))) (ground (arith, i.last, i.complete, i.closing))
    ]

    reporter_moves : (r : Reporter) → s.reporter ≡ r → is_finished r ≡ false → Nearer s
    reporter_moves waiting e f = nearer _ (flush e c) (ground arith) c
    reporter_moves (dispatching []) e f = nearer _ (dispatched e) (ground arith) c
    reporter_moves (dispatching (m ∷ ms)) e f = nearer _ (abandon m ms e c) (ground arith) c
    reporter_moves (flushing []) e f = nearer _ (flushed e) (ground arith) c
    reporter_moves (flushing (m ∷ ms)) e f = flushing_moves m ms e
    reporter_moves finished e f = absurd cc

    done_or_moves :
        (p g : Bool) (r : Reporter)
        → s.polling ≡ p
        → s.gopsutil ≡ g
        → s.reporter ≡ r
        → Nearer s ⊎ IsDone s
    done_or_moves true g r ep eg er = inl (nearer _ (stop_polling ep c) (ground arith) c)
    done_or_moves false true r ep eg er = inl (nearer _ (stop_gopsutil eg c) (ground arith) c)
    done_or_moves false false finished ep eg er =
        elim (dec_lt (stopped_workers s.workers) (length s.workers)) [
          | yes h ↦ inl (workers_move (inl (i.closing ∙ ap is_finished er)) h)
          | no h ↦ inr (record {
            polled = ep;
            gopsutil_polled = eg;
            reported = er;
            worked = omega (arith, stopped_workers-le s.workers);
          })
        ]
    done_or_moves false false waiting ep eg er = inl (reporter_moves waiting er refl)
    done_or_moves false false (dispatching ms) ep eg er =
        inl (reporter_moves (dispatching ms) er refl)
    done_or_moves false false (flushing ms) ep eg er = inl (reporter_moves (flushing ms) er refl)

  moved :
      (s : Agent) → 0 < rate_limit → IsSafe rate_limit s → s.cancelled ≡ true → Nearer s ⊎ IsDone s
  moved s some_worker i c =
      done_or_moves some_worker s i c s.polling s.gopsutil s.reporter refl refl refl

  ends :
      (n : ℕ) (s : Agent)
      → 0 < rate_limit
      → IsSafe rate_limit s
      → remaining visit s ≤ n
      → Nearer s ⊎ IsDone s
      → (t : Agent) × Run visit rate_limit s t × IsDone t
  ends n s some_worker i le (inr d) = (s, rest s, d)
  ends zero s some_worker i le (inl (t, step, less, c)) = absurd (omega arith)
  ends (suc n) s some_worker i le (inl (t, step, less, c)) =
      let j = step-IsSafe step i in
      let (u, run, d) = ends n t some_worker j (omega arith) (moved t some_worker j c) in
      (u, then step run, d)

  -- The agent can always come to its end: with at least one worker, from every state that it reaches
  -- there is a run, with the signal if that has not come, after which all goroutines have returned.
  pub Reach-ends :
      (c : Collector) {s : Agent}
      → 0 < rate_limit
      → Reach visit rate_limit c s
      → (t : Agent) × Run visit rate_limit s t × IsDone t
  Reach-ends c {s} some_worker r =
      let u : Agent = record s { cancelled = true } in
      let i = Reach-IsSafe c (next r cancel) in
      let (t, run, d) =
        ends (remaining visit u) u some_worker i (omega arith) (moved u some_worker i refl) in
      (t, then cancel run, d)

in_hand-stopped : (ws : List Worker) → stopped_workers ws ≡ length ws → in_hand ws ≡ []
in_hand-stopped [] e = refl
in_hand-stopped (stopped ∷ ws) e = in_hand-stopped ws (omega arith)
in_hand-stopped (idle ∷ ws) e = absurd (omega (arith, stopped_workers-le ws))
in_hand-stopped (received m ∷ ws) e = absurd (omega (arith, stopped_workers-le ws))
in_hand-stopped (sending c m ∷ ws) e = absurd (omega (arith, stopped_workers-le ws))

-- When all goroutines have returned the channel is empty, and each metric was in the snapshots as
-- often as it was handed to SendMetric or given up by the reporter.
pub done-accounted :
    {visit : Visit} {rate_limit : ℕ} (w : Metrics → ℕ) (c : Collector) {s : Agent}
    → 0 < rate_limit
    → Reach visit rate_limit c s
    → IsDone s
    → (s.jobs ≡ []) × (total w s.handled + total w s.lost ≡ total w s.taken)
done-accounted w c {s} some_worker r d =
    let i = Reach-IsSafe c r in
    let (closed, empty) = i.last (omega (arith, i.complete, d.worked)) in
    (empty, ground (arith, Reach-accounted w c r, in_hand-stopped s.workers d.worked, d.reported))
