-- ===== src/Agent/Main/Loss.antt =====
-- When the reporter gives metrics up.
use study_project_metrics_an.Base.{
  ℕ, ◌≤◌, ◌≡◌, refl, Bool, true, false, List, [], ◌∷◌, ◌++◌, arith, ap,
}
use study_project_metrics_an.Model.{Metrics}
use study_project_metrics_an.Storage.Memory.{Visit}
use study_project_metrics_an.Agent.Collector.{Collector, get_all_metrics}
use study_project_metrics_an.Agent.Main.{
  Reporter, waiting, dispatching, flushing, finished, Agent, start, dispatch_of, Step, pass, cancel,
  poll, poll_gopsutil, stop_polling, stop_gopsutil, tick, put, dispatched, abandon, flush,
  flush_put, flush_abandon, flushed, receive, choose, send, stop, Reach, here, next,
}
use study_project_metrics_an.Agent.Main.{drain_timeout}
use study_project_metrics_an.Agent.Main.Invariant.{is_finished}

abbrev pub loops : Reporter → Bool
loops waiting = true
loops (dispatching ms) = true
loops (flushing ms) = false
loops finished = false

-- Before the signal the reporter is in its loop, and a reporter that has not returned has given
-- nothing up.
pub record IsKept (s : Agent) : Type 0 where
  pub looping : s.cancelled ≡ false → loops s.reporter ≡ true
  pub kept : is_finished s.reporter ≡ false → s.lost ≡ []

start-IsKept : (rate_limit : ℕ) (c : Collector) → IsKept (start rate_limit c)
unfolding start
start-IsKept n c = record { looping = λ _. refl; kept = λ _. refl }

loops-dispatch_of : (ms : List Metrics) → loops (dispatch_of ms) ≡ true
loops-dispatch_of [] = refl
loops-dispatch_of (m ∷ ms) = refl

same-IsKept :
    {s t : Agent}
    → t.cancelled ≡ s.cancelled
    → t.reporter ≡ s.reporter
    → t.lost ≡ s.lost
    → IsKept s
    → IsKept t
same-IsKept c r l k = record { looping = ground (arith, k.looping); kept = ground (arith, k.kept) }

-- A step of the reporter.
reported-IsKept :
    {s t : Agent}
    → (t.cancelled ≡ false → loops t.reporter ≡ true)
    → t.lost ≡ s.lost
    → is_finished s.reporter ≡ false
    → IsKept s
    → IsKept t
reported-IsKept c l f k = record { looping = c; kept = ground (arith, k.kept) }

module _ {visit : Visit} {rate_limit : ℕ} where
  step-IsKept : {s t : Agent} → Step visit rate_limit s t → IsKept s → IsKept t
  step-IsKept pass k = same-IsKept refl refl refl k
  step-IsKept cancel k = record { looping = λ e. absurd cc; kept = k.kept }
  step-IsKept (poll m r p) k = same-IsKept refl refl refl k
  step-IsKept (poll_gopsutil n m p q) k = same-IsKept refl refl refl k
  step-IsKept (stop_polling p c) k = same-IsKept refl refl refl k
  step-IsKept (stop_gopsutil p c) k = same-IsKept refl refl refl k
  step-IsKept {s} (tick e) k =
      reported-IsKept (λ _. loops-dispatch_of (get_all_metrics visit s.collector)) refl (rw e) k
  step-IsKept (put m ms e r) k = reported-IsKept (λ _. refl) refl (rw e) k
  step-IsKept (dispatched e) k = reported-IsKept (λ _. refl) refl (rw e) k
  step-IsKept (abandon m ms e c) k = record { looping = λ f. absurd cc; kept = λ f. absurd cc }
  step-IsKept (flush e c) k = reported-IsKept (λ f. absurd cc) refl (rw e) k
  step-IsKept {s} (flush_put m ms e r) k =
      reported-IsKept (λ f. absurd (ground (arith, k.looping f))) refl (rw e) k
  step-IsKept (flush_abandon m ms e d) k = record {
    looping = λ f. absurd (ground (arith, k.looping f));
    kept = λ f. absurd cc;
  }
  step-IsKept (flushed e) k = record {
    looping = λ f. absurd (ground (arith, k.looping f));
    kept = λ f. absurd cc;
  }
  step-IsKept (receive before after m rest e j) k = same-IsKept refl refl refl k
  step-IsKept (choose before after m e) k = same-IsKept refl refl refl k
  step-IsKept (send before after c m e) k = same-IsKept refl refl refl k
  step-IsKept (stop before after e j c) k = same-IsKept refl refl refl k

  -- Metrics are given up only at the end: before the signal the reporter is in its loop, and while it
  -- has not returned nothing was given up.
  pub Reach-IsKept : (c : Collector) {s : Agent} → Reach visit rate_limit c s → IsKept s
  Reach-IsKept c here = start-IsKept rate_limit c
  Reach-IsKept c (next r step) = step-IsKept step (Reach-IsKept c r)

module _ {visit : Visit} {rate_limit : ℕ} (c : Collector) where
  -- A flush of a snapshot that is not empty, at a time at which the drain context, which is made at
  -- the start of the agent and not at the signal, has run out, can give up the whole snapshot,
  -- although the channel has room.
  pub flush-lost :
      {s : Agent} (m : Metrics) (ms : List Metrics)
      → Reach visit rate_limit c s
      → s.reporter ≡ waiting
      → s.cancelled ≡ true
      → drain_timeout ≤ s.elapsed
      → get_all_metrics visit s.collector ≡ m ∷ ms
      → (t : Agent) × Reach visit rate_limit c t
        × (t.lost ≡ s.lost ++ (m ∷ ms))
        × (t.reporter ≡ finished)
        × (t.jobs ≡ s.jobs)
  flush-lost m ms r e k late snap =
      (_, next (next r (flush e k)) (flush_abandon m ms (ap flushing snap) late), refl, refl, refl)
