-- ===== src/Agent/Main/Invariant.antt =====
-- The channel of jobs and who uses it.
use study_project_metrics_an.Base.{
  ℕ, zero, suc, ◌+◌, ◌≤◌, ◌<◌, ◌≡◌, refl, sym, Bool, true, false, List, [], ◌∷◌, ◌++◌, length,
  length-append, arith, ◌⊎◌, inl, inr, ◌∙◌,
}
use study_project_metrics_an.Model.{Metrics}
use study_project_metrics_an.Storage.Memory.{Visit}
use study_project_metrics_an.Agent.Collector.{Collector, get_all_metrics}
use study_project_metrics_an.Agent.Main.{
  Reporter, waiting, dispatching, flushing, finished, Worker, idle, received, sending, stopped,
  context_of, Agent, start, capacity, idle_workers, dispatch_of, Step, pass, cancel, poll,
  poll_gopsutil, stop_polling, stop_gopsutil, tick, put, dispatched, abandon, flush, flush_put,
  flush_abandon, flushed, receive, choose, send, stop, Reach, here, next,
}

abbrev pub is_finished : Reporter → Bool
is_finished finished = true
is_finished waiting = false
is_finished (dispatching ms) = false
is_finished (flushing ms) = false

abbrev pub one_stopped : Worker → ℕ
one_stopped stopped = 1
one_stopped idle = 0
one_stopped (received m) = 0
one_stopped (sending c m) = 0

-- How many workers have returned.
abbrev pub stopped_workers : List Worker → ℕ
stopped_workers [] = 0
stopped_workers (x ∷ xs) = one_stopped x + stopped_workers xs

-- The channel never holds more than its capacity, it is closed once the reporter has returned and
-- not before, so that nothing is put into it when it is closed, no worker goes missing, and a worker
-- returns only when the channel is closed and empty.
pub record IsSafe (rate_limit : ℕ) (s : Agent) : Type 0 where
  pub bounded : length s.jobs ≤ capacity rate_limit
  pub closing : s.closed ≡ is_finished s.reporter
  pub complete : length s.workers ≡ rate_limit
  pub last : 0 < stopped_workers s.workers → (s.closed ≡ true) × (s.jobs ≡ [])

pub stopped_workers-mid :
    (before after : List Worker) (x : Worker)
    → stopped_workers (before ++ (x ∷ after))
      ≡ stopped_workers before + one_stopped x + stopped_workers after
stopped_workers-mid [] after x = omega arith
stopped_workers-mid (y ∷ before) after x = omega (arith, stopped_workers-mid before after x)

length-mid :
    (before after : List Worker) (x : Worker)
    → length (before ++ (x ∷ after)) ≡ suc (length before + length after)
length-mid before after x = omega (arith, length-append before (x ∷ after))

is_finished-dispatch_of : (ms : List Metrics) → is_finished (dispatch_of ms) ≡ false
is_finished-dispatch_of [] = refl
is_finished-dispatch_of (m ∷ ms) = refl

length-idle_workers : (n : ℕ) → length (idle_workers n) ≡ n
length-idle_workers zero = refl
length-idle_workers (suc n) = omega (arith, length-idle_workers n)

stopped_workers-idle_workers : (n : ℕ) → stopped_workers (idle_workers n) ≡ 0
stopped_workers-idle_workers zero = refl
stopped_workers-idle_workers (suc n) = omega (arith, stopped_workers-idle_workers n)

start-IsSafe : (rate_limit : ℕ) (c : Collector) → IsSafe rate_limit (start rate_limit c)
unfolding start
start-IsSafe n c = record {
  bounded = omega arith;
  closing = refl;
  complete = length-idle_workers n;
  last = λ h. absurd (omega (arith, stopped_workers-idle_workers n));
}

-- What concerns neither the channel nor the workers.
kept-IsSafe :
    {rate_limit : ℕ} {s t : Agent}
    → t.jobs ≡ s.jobs
    → t.workers ≡ s.workers
    → t.closed ≡ s.closed
    → is_finished t.reporter ≡ is_finished s.reporter
    → IsSafe rate_limit s
    → IsSafe rate_limit t
kept-IsSafe j w c r i = record {
  bounded = ground (arith, i.bounded);
  closing = c ∙ i.closing ∙ sym r;
  complete = ground (arith, i.complete);
  last = ground (arith, i.last);
}

-- The reporter puts a metric into the channel.
put-IsSafe :
    {rate_limit : ℕ} {s : Agent} (m : Metrics) (reporter : Reporter)
    → is_finished s.reporter ≡ false
    → is_finished reporter ≡ false
    → length s.jobs < capacity rate_limit
    → IsSafe rate_limit s
    → IsSafe rate_limit (record s { reporter = reporter; jobs = s.jobs ++ (m ∷ []) })
put-IsSafe {s} m reporter e e' room i = record {
  bounded = ground (arith, length-append s.jobs (m ∷ []));
  closing = ground (arith, i.closing);
  complete = i.complete;
  last = λ h. absurd (ground (arith, i.last h, i.closing));
}

-- The reporter returns.
finished-IsSafe :
    {rate_limit : ℕ} {s : Agent} (lost : List Metrics)
    → is_finished s.reporter ≡ false
    → IsSafe rate_limit s
    → IsSafe rate_limit (record s { reporter = finished; closed = true; lost = lost })
finished-IsSafe lost e i = record {
  bounded = i.bounded;
  closing = refl;
  complete = i.complete;
  last = λ h. absurd (ground (arith, i.last h, i.closing));
}

-- A worker becomes another, which has returned only if the channel is closed and empty.
moved-IsSafe :
    {rate_limit : ℕ} {s : Agent} (before after : List Worker) (x y : Worker)
    (jobs handled : List Metrics)
    → s.workers ≡ before ++ (x ∷ after)
    → length jobs ≤ length s.jobs
    → (s.closed ≡ true → s.jobs ≡ [] → jobs ≡ [])
    → one_stopped y ≡ one_stopped x ⊎ (s.closed ≡ true) × (jobs ≡ [])
    → IsSafe rate_limit s
    → IsSafe rate_limit
        (record s { workers = before ++ (y ∷ after); jobs = jobs; handled = handled })
moved-IsSafe before after x y jobs handled e less empty p i = record {
  bounded = omega (arith, i.bounded);
  closing = i.closing;
  complete = ground (arith, i.complete, length-mid before after x, length-mid before after y);
  last =
      ground
        (arith, i.last, stopped_workers-mid before after x, stopped_workers-mid before after y);
}

module _ {visit : Visit} {rate_limit : ℕ} where
  pub step-IsSafe :
      {s t : Agent} → Step visit rate_limit s t → IsSafe rate_limit s → IsSafe rate_limit t
  step-IsSafe pass i = kept-IsSafe refl refl refl refl i
  step-IsSafe cancel i = kept-IsSafe refl refl refl refl i
  step-IsSafe (poll m r p) i = kept-IsSafe refl refl refl refl i
  step-IsSafe (poll_gopsutil n m p q) i = kept-IsSafe refl refl refl refl i
  step-IsSafe (stop_polling p c) i = kept-IsSafe refl refl refl refl i
  step-IsSafe (stop_gopsutil p c) i = kept-IsSafe refl refl refl refl i
  step-IsSafe {s} (tick e) i =
      kept-IsSafe refl refl refl
        (rw (e, is_finished-dispatch_of (get_all_metrics visit s.collector))) i
  step-IsSafe (put m ms e r) i = put-IsSafe m (dispatching ms) (rw e) refl r i
  step-IsSafe (dispatched e) i = kept-IsSafe refl refl refl (rw e) i
  step-IsSafe {s} (abandon m ms e c) i = finished-IsSafe (s.lost ++ (m ∷ ms)) (rw e) i
  step-IsSafe (flush e c) i = kept-IsSafe refl refl refl (rw e) i
  step-IsSafe (flush_put m ms e r) i = put-IsSafe m (flushing ms) (rw e) refl r i
  step-IsSafe {s} (flush_abandon m ms e d) i = finished-IsSafe (s.lost ++ (m ∷ ms)) (rw e) i
  step-IsSafe {s} (flushed e) i = finished-IsSafe s.lost (rw e) i
  step-IsSafe {s} (receive before after m rest e j) i =
      moved-IsSafe before after idle (received m) rest s.handled e (rw j (omega arith))
        (λ c n. absurd cc) (inl refl) i
  step-IsSafe {s} (choose before after m e) i =
      moved-IsSafe before after (received m) (sending (context_of s.cancelled) m) s.jobs s.handled e
        (omega arith) (λ c n. n) (inl refl) i
  step-IsSafe {s} (send before after c m e) i =
      moved-IsSafe before after (sending c m) idle s.jobs (s.handled ++ (m ∷ [])) e (omega arith)
        (λ c n. n) (inl refl) i
  step-IsSafe {s} (stop before after e j c) i =
      moved-IsSafe before after idle stopped s.jobs s.handled e (omega arith) (λ c n. n)
        (inr (c, j)) i

  -- In every state that the agent reaches the channel holds at most two jobs for each worker, it is
  -- closed exactly when the reporter has returned, so that nothing is sent on a closed channel, all
  -- workers are there, and one has returned only if the channel is closed and empty.
  pub Reach-IsSafe : (c : Collector) {s : Agent} → Reach visit rate_limit c s → IsSafe rate_limit s
  Reach-IsSafe c here = start-IsSafe rate_limit c
  Reach-IsSafe c (next r step) = step-IsSafe step (Reach-IsSafe c r)
