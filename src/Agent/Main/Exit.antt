-- ===== src/Agent/Main/Exit.antt =====
-- The end of run(): it waits for the signal, then for the goroutines or for 30 seconds.
use study_project_metrics_an.Base.{ℕ, ◌+◌, ◌≤◌, ◌<◌, ◌≡◌, refl, true, Option, none, some, [], arith}
use study_project_metrics_an.Model.{Metrics}
use study_project_metrics_an.Storage.Memory.{Visit}
use study_project_metrics_an.Agent.Collector.{Collector}
use study_project_metrics_an.Agent.Main.{
  Agent, start, Step, pass, cancel, poll, poll_gopsutil, stop_polling, stop_gopsutil, tick, put,
  dispatched, abandon, flush, flush_put, flush_abandon, flushed, receive, choose, send, stop, Reach,
  here, next,
}
use study_project_metrics_an.Agent.Main.Accounts.{total, accounted, Reach-accounted}
use study_project_metrics_an.Agent.Main.Shutdown
use study_project_metrics_an.Agent.Main.Shutdown.{Run, IsDone, Reach-ends, done-accounted}

-- In seconds.
abbrev pub shutdown_timeout : ℕ
shutdown_timeout = 30

pub data Ending : Type 0 where
  graceful forced : Ending

-- `signalled` is the second at which run() went on after the signal, `ending` how it has returned.
pub record Process : Type 0 where
  pub agent : Agent
  pub signalled : Option ℕ
  pub ending : Option Ending

abbrev pub begin : ℕ → Collector → Process
begin rate_limit c = record { agent = start rate_limit c; signalled = none; ending = none }

-- The goroutines move as long as run() has not returned, since the process ends with it.
pub data Move (visit : Visit) (rate_limit : ℕ) (p : Process) : Process → Type 0 where
  goroutine :
      {a : Agent}
      → p.ending ≡ none
      → Step visit rate_limit p.agent a
      → Move visit rate_limit p (record p { agent = a })
  notice :
      p.signalled ≡ none
      → p.agent.cancelled ≡ true
      → Move visit rate_limit p (record p { signalled = some p.agent.elapsed })
  waited :
      (n : ℕ)
      → p.ending ≡ none
      → p.signalled ≡ some n
      → IsDone p.agent
      → Move visit rate_limit p (record p { ending = some graceful })
  timed_out :
      (n : ℕ)
      → p.ending ≡ none
      → p.signalled ≡ some n
      → n + shutdown_timeout ≤ p.agent.elapsed
      → Move visit rate_limit p (record p { ending = some forced })

pub data Moves (visit : Visit) (rate_limit : ℕ) (p : Process) : Process → Type 0 where
  rest : Moves visit rate_limit p p
  then :
      {q r : Process}
      → Moves visit rate_limit p q
      → Move visit rate_limit q r
      → Moves visit rate_limit p r

-- What the way in which run() has returned says.
abbrev IsEnded : Option Ending → Option ℕ → Agent → Type 0
IsEnded none signalled a = Unit
IsEnded (some graceful) signalled a = ((n : ℕ) × (signalled ≡ some n)) × IsDone a
IsEnded (some forced) signalled a =
    (n : ℕ) × (signalled ≡ some n) × (n + shutdown_timeout ≤ a.elapsed)

record IsRun (visit : Visit) (rate_limit : ℕ) (c : Collector) (p : Process) : Type 0 where
  reached : Reach visit rate_limit c p.agent
  noticed : (n : ℕ) → p.signalled ≡ some n → (p.agent.cancelled ≡ true) × (n ≤ p.agent.elapsed)
  ended : IsEnded p.ending p.signalled p.agent

IsEnded-unnoticed :
    (ending : Option Ending) (a : Agent)
    → IsEnded ending none a
    → (signalled : Option ℕ) → IsEnded ending signalled a
IsEnded-unnoticed none a i signalled = tt
IsEnded-unnoticed (some graceful) a i signalled = absurd cc
IsEnded-unnoticed (some forced) a i signalled = absurd cc

-- What has become of the metrics when run() has returned.
abbrev pub IsSettled : (Metrics → ℕ) → Process → Ending → Type 0
IsSettled w p graceful =
    (p.agent.jobs ≡ []) × (total w p.agent.handled + total w p.agent.lost ≡ total w p.agent.taken)
IsSettled w p forced =
    ((n : ℕ) × (p.signalled ≡ some n) × (n + shutdown_timeout ≤ p.agent.elapsed))
    × (accounted w p.agent ≡ total w p.agent.taken)

ended-signalled :
    (p : Process) (ending : Ending)
    → IsEnded (some ending) p.signalled p.agent
    → (n : ℕ) × (p.signalled ≡ some n)
ended-signalled p graceful (seen, d) = seen
ended-signalled p forced (n, s, late) = (n, s)

module _ {visit : Visit} {rate_limit : ℕ} where
  step-cancelled :
      {a b : Agent}
      → Step visit rate_limit a b
      → a.cancelled ≡ true
      → (b.cancelled ≡ true) × (a.elapsed ≤ b.elapsed)
  step-cancelled pass h = (h, omega arith)
  step-cancelled cancel h = (refl, omega arith)
  step-cancelled (poll m r p) h = (h, omega arith)
  step-cancelled (poll_gopsutil n m p q) h = (h, omega arith)
  step-cancelled (stop_polling p c) h = (h, omega arith)
  step-cancelled (stop_gopsutil p c) h = (h, omega arith)
  step-cancelled (tick e) h = (h, omega arith)
  step-cancelled (put m ms e r) h = (h, omega arith)
  step-cancelled (dispatched e) h = (h, omega arith)
  step-cancelled (abandon m ms e c) h = (h, omega arith)
  step-cancelled (flush e c) h = (h, omega arith)
  step-cancelled (flush_put m ms e r) h = (h, omega arith)
  step-cancelled (flush_abandon m ms e d) h = (h, omega arith)
  step-cancelled (flushed e) h = (h, omega arith)
  step-cancelled (receive before after m later e j) h = (h, omega arith)
  step-cancelled (choose before after m e) h = (h, omega arith)
  step-cancelled (send before after c m e) h = (h, omega arith)
  step-cancelled (stop before after e j c) h = (h, omega arith)

  module _ (c : Collector) where
    Move-IsRun :
        {p q : Process}
        → Move visit rate_limit p q
        → IsRun visit rate_limit c p
        → IsRun visit rate_limit c q
    Move-IsRun (goroutine e step) i = record {
      reached = next i.reached step;
      noticed = λ n s.
          let (cancelled, le) = i.noticed n s in
          let (still, more) = step-cancelled step cancelled in (still, omega arith);
      ended = rw e tt;
    }
    Move-IsRun {p} (notice e cancelled) i = record {
      reached = i.reached;
      noticed = λ n s. (cancelled, ground arith);
      ended = IsEnded-unnoticed p.ending p.agent (rw e at i.ended) (some p.agent.elapsed);
    }
    Move-IsRun (waited n e s d) i = record {
      reached = i.reached;
      noticed = i.noticed;
      ended = ((n, s), d);
    }
    Move-IsRun (timed_out n e s late) i = record {
      reached = i.reached;
      noticed = i.noticed;
      ended = (n, s, late);
    }

    Moves-IsRun :
        {p : Process} → Moves visit rate_limit (begin rate_limit c) p → IsRun visit rate_limit c p
    Moves-IsRun rest = record { reached = here; noticed = λ n s. absurd cc; ended = tt }
    Moves-IsRun (then moves move) = Move-IsRun move (Moves-IsRun moves)

    ended-IsSettled :
        (w : Metrics → ℕ) (p : Process) (ending : Ending)
        → 0 < rate_limit
        → Reach visit rate_limit c p.agent
        → IsEnded (some ending) p.signalled p.agent
        → IsSettled w p ending
    ended-IsSettled w p graceful some_worker r (seen, d) = done-accounted w c some_worker r d
    ended-IsSettled w p forced some_worker r late = (late, Reach-accounted w c r)

    -- run() returns only after the signal. If it then says that the agent stopped gracefully, the
    -- channel is empty and each metric of the snapshots was handed to SendMetric or given up by
    -- the reporter; else 30 seconds have passed since it saw the signal, and each metric was handed
    -- on, was given up, or is still with the reporter, in the channel or with a worker.
    pub Moves-IsSettled :
        (w : Metrics → ℕ) {p : Process} (ending : Ending)
        → 0 < rate_limit
        → Moves visit rate_limit (begin rate_limit c) p
        → p.ending ≡ some ending
        → (p.agent.cancelled ≡ true) × IsSettled w p ending
    Moves-IsSettled w {p} ending some_worker moves e =
        let i = Moves-IsRun moves in
        let ended : IsEnded (some ending) p.signalled p.agent = rw e at i.ended in
        let (n, seen) = ended-signalled p ending ended in
        ((i.noticed n seen).0, ended-IsSettled w p ending some_worker i.reached ended)

    -- The goroutines alone.
    pub Reach-Moves :
        {a : Agent}
        → Reach visit rate_limit c a
        → Moves visit rate_limit (begin rate_limit c) (record (begin rate_limit c) { agent = a })
    Reach-Moves here = rest
    Reach-Moves (next r step) = then (Reach-Moves r) (goroutine refl step)

    Moves-Run :
        {p q : Process} {a : Agent}
        → Moves visit rate_limit p q
        → q.ending ≡ none
        → Shutdown.Run visit rate_limit q.agent a
        → Moves visit rate_limit p (record q { agent = a })
    Moves-Run moves e (Shutdown.rest a) = moves
    Moves-Run {q} moves e (Shutdown.then {t} step run) =
        Moves-Run {q = record q { agent = t }} (then moves (goroutine e step)) e run

    -- The last moves, once the goroutines have returned.
    waited_for :
        (o p : Process) (signalled : Option ℕ)
        → Moves visit rate_limit o p
        → p.signalled ≡ signalled
        → p.ending ≡ none
        → IsDone p.agent
        → (q : Process) × Moves visit rate_limit o q × (q.ending ≡ some graceful)
    waited_for o p (some n) moves s e d =
        (record p { ending = some graceful }, then moves (waited n e s d), refl)
    waited_for o p none moves s e d =
        let signal : Agent = record p.agent { cancelled = true } in
        let q : Process = record p { agent = signal } in
        let seen : Process = record q { signalled = some p.agent.elapsed } in
        (
          record seen { ending = some graceful },
          then (then {q = q} (then moves (goroutine e cancel)) (notice s refl)) (
              waited p.agent.elapsed e refl (record {
                polled = d.polled;
                gopsutil_polled = d.gopsutil_polled;
                reported = d.reported;
                worked = d.worked;
              })),
          refl,
        )

    -- As long as run() has not returned, there is a way in which it returns gracefully, with the
    -- signal if that has not come.
    pub Moves-returns :
        {p : Process}
        → 0 < rate_limit
        → Moves visit rate_limit (begin rate_limit c) p
        → p.ending ≡ none
        → (q : Process) × Moves visit rate_limit p q × (q.ending ≡ some graceful)
    Moves-returns {p} some_worker moves e =
        let (a, run, d) = Reach-ends visit rate_limit c some_worker (Moves-IsRun moves).reached in
        waited_for p (record p { agent = a }) p.signalled (Moves-Run rest e run) refl e d
