-- ===== src/Agent/Main/Accounts.antt =====
-- Where the metrics of the snapshots are: handled, with a worker, in the channel, with the reporter,
-- or lost.
use study_project_metrics_an.Base.{ℕ, zero, suc, ◌+◌, ◌≡◌, refl, List, [], ◌∷◌, ◌++◌, arith}
use study_project_metrics_an.Model.{Metrics}
use study_project_metrics_an.Storage.Memory.{Visit}
use study_project_metrics_an.Agent.Collector.{Collector, get_all_metrics}
use study_project_metrics_an.Agent.Main.{
  Reporter, waiting, dispatching, flushing, finished, Worker, idle, received, sending, stopped,
  context_of, Agent, start, idle_workers, dispatch_of, Step, pass, cancel, poll, poll_gopsutil,
  stop_polling, stop_gopsutil, tick, put, dispatched, abandon, flush, flush_put, flush_abandon,
  flushed, receive, choose, send, stop, Reach, here, next,
}

abbrev pub held : Worker → List Metrics
held idle = []
held (received m) = m ∷ []
held (sending c m) = m ∷ []
held stopped = []

abbrev pub in_hand : List Worker → List Metrics
in_hand [] = []
in_hand (x ∷ xs) = held x ++ in_hand xs

abbrev pub pending : Reporter → List Metrics
pending waiting = []
pending (dispatching ms) = ms
pending (flushing ms) = ms
pending finished = []

-- What a list of metrics weighs, where each metric weighs what `w` says: with the weight 1 of one
-- metric and 0 of all others, how often the list has it.
abbrev pub total : (Metrics → ℕ) → List Metrics → ℕ
total w [] = 0
total w (m ∷ ms) = w m + total w ms

total-append :
    (w : Metrics → ℕ) (xs ys : List Metrics) → total w (xs ++ ys) ≡ total w xs + total w ys
total-append w [] ys = omega arith
total-append w (x ∷ xs) ys = omega (arith, total-append w xs ys)

-- One worker among the others.
total-in_hand :
    (w : Metrics → ℕ) (before after : List Worker) (x : Worker)
    → total w (in_hand (before ++ (x ∷ after)))
      ≡ total w (in_hand before) + total w (held x) + total w (in_hand after)
total-in_hand w [] after x = ground (arith, total-append w (held x) (in_hand after))
total-in_hand w (y ∷ before) after x = ground (
  arith,
  total-in_hand w before after x,
  total-append w (held y) (in_hand before),
  total-append w (held y) (in_hand (before ++ (x ∷ after))),
)

total-dispatch_of :
    (w : Metrics → ℕ) (ms : List Metrics) → total w (pending (dispatch_of ms)) ≡ total w ms
total-dispatch_of w [] = refl
total-dispatch_of w (m ∷ ms) = refl

total-idle_workers : (w : Metrics → ℕ) (n : ℕ) → total w (in_hand (idle_workers n)) ≡ 0
total-idle_workers w zero = refl
total-idle_workers w (suc n) = total-idle_workers w n

abbrev pub accounted : (Metrics → ℕ) → Agent → ℕ
accounted w s =
    total w s.handled
    + total w (in_hand s.workers)
    + total w s.jobs
    + total w (pending s.reporter)
    + total w s.lost

module _ (w : Metrics → ℕ) (rate_limit : ℕ) where
  start-accounted :
      (c : Collector) → accounted w (start rate_limit c) ≡ total w (start rate_limit c).taken
  unfolding start
  start-accounted c = omega (arith, total-idle_workers w rate_limit)

module _ {visit : Visit} {rate_limit : ℕ} (w : Metrics → ℕ) where
  step-accounted :
      {s t : Agent}
      → Step visit rate_limit s t
      → accounted w s ≡ total w s.taken
      → accounted w t ≡ total w t.taken
  step-accounted pass h = h
  step-accounted cancel h = h
  step-accounted (poll m r p) h = h
  step-accounted (poll_gopsutil n m p q) h = h
  step-accounted (stop_polling p c) h = h
  step-accounted (stop_gopsutil p c) h = h
  step-accounted {s} (tick e) h = ground (
    arith,
    total-append w s.taken (get_all_metrics visit s.collector),
    total-dispatch_of w (get_all_metrics visit s.collector),
  )
  step-accounted {s} (put m ms e r) h = ground (arith, total-append w s.jobs (m ∷ []))
  step-accounted {s} (dispatched e) h = ground (arith, e)
  step-accounted {s} (abandon m ms e c) h = ground (arith, total-append w s.lost (m ∷ ms))
  step-accounted {s} (flush e c) h =
      ground (arith, total-append w s.taken (get_all_metrics visit s.collector))
  step-accounted {s} (flush_put m ms e r) h = ground (arith, total-append w s.jobs (m ∷ []))
  step-accounted {s} (flush_abandon m ms e d) h = ground (arith, total-append w s.lost (m ∷ ms))
  step-accounted {s} (flushed e) h = ground (arith, e)
  step-accounted {s} (receive before after m rest e j) h =
      ground (arith, total-in_hand w before after idle, total-in_hand w before after (received m))
  step-accounted {s} (choose before after m e) h = ground (
    arith,
    total-in_hand w before after (received m),
    total-in_hand w before after (sending (context_of s.cancelled) m),
  )
  step-accounted {s} (send before after c m e) h = ground (
    arith,
    total-in_hand w before after (sending c m),
    total-in_hand w before after idle,
    total-append w s.handled (m ∷ []),
  )
  step-accounted {s} (stop before after e j c) h =
      ground (arith, total-in_hand w before after idle, total-in_hand w before after stopped)

  -- No metric is lost sight of and none is sent twice: in every state that the agent reaches, each
  -- metric was in the snapshots taken so far as often as it was handed to SendMetric, is with a
  -- worker, waits in the channel, waits at the reporter, or was given up.
  pub Reach-accounted :
      (c : Collector) {s : Agent} → Reach visit rate_limit c s → accounted w s ≡ total w s.taken
  Reach-accounted c here = start-accounted w rate_limit c
  Reach-accounted c (next r step) = step-accounted step (Reach-accounted c r)
