-- ===== src/Agent/Main/Tests.antt =====
-- An agent with one worker and one gauge, from its start to the end of its goroutines.
use study_project_metrics_an.Base.{
  ℕ, zero, suc, ◌+◌, ◌≤◌, ◌≡◌, refl, true, false, none, some, [], ◌∷◌, arith,
}
use study_project_metrics_an.Model.{Metrics}
use study_project_metrics_an.Fixtures.{listed, gauge_a}
use study_project_metrics_an.Agent.Collector.{Collector, get_all_metrics}
use study_project_metrics_an.Agent.Main.{
  server_url, waiting, dispatching, finished, idle, received, sending, stopped, main_context,
  drain_context, Agent, start, pass, cancel, stop_polling, stop_gopsutil, tick, put, dispatched,
  flush, flush_put, flushed, receive, choose, send, stop, Reach, here, next,
}
use study_project_metrics_an.Config.{behind}
use study_project_metrics_an.Agent.Main.Accounts.{total, accounted, Reach-accounted}
use study_project_metrics_an.Agent.Main.Invariant.{IsSafe, Reach-IsSafe}
use study_project_metrics_an.Agent.Main.Exit.{
  Process, begin, graceful, Moves, then, notice, waited, IsSettled, Moves-IsSettled, Moves-returns,
  Reach-Moves,
}
use study_project_metrics_an.Agent.Main.Measure.{
  remaining, ended, outside, forward, remaining-bounds,
}

abbrev one_gauge : Collector
one_gauge = record {
  gauge = ("a", 5) ∷ [];
  counter = [];
  buffer = [];
  batch_size = 1;
  endpoint = "";
}

abbrev one : Metrics → ℕ
one m = 1

abbrev g : Metrics
g = gauge_a 5

abbrev at_start : Agent
at_start = record {
  collector = one_gauge;
  polling = true;
  gopsutil = true;
  reporter = waiting;
  jobs = [];
  closed = false;
  workers = idle ∷ [];
  cancelled = false;
  elapsed = 0;
  taken = [];
  handled = [];
  lost = [];
}

start_one : start 1 one_gauge ≡ at_start
unfolding start
start_one = refl

-- The worker has taken the only metric of the first snapshot.
abbrev busy : Agent
busy = record at_start { reporter = dispatching []; workers = received g ∷ []; taken = g ∷ [] }

Reach-busy : Reach listed 1 one_gauge busy
unfolding start get_all_metrics
Reach-busy =
    next (next (next here (tick refl)) (put g [] refl (omega arith))) (receive [] [] g [] refl refl)

-- The signal comes while the worker sends it.
abbrev signalled : Agent
signalled = record busy {
  workers = sending main_context g ∷ [];
  reporter = waiting;
  cancelled = true;
}

Reach-signalled : Reach listed 1 one_gauge signalled
Reach-signalled = next (next (next Reach-busy (choose [] [] g refl)) (dispatched refl)) cancel

abbrev reported : Agent
reported = record signalled {
  polling = false;
  gopsutil = false;
  reporter = finished;
  closed = true;
  jobs = g ∷ [];
  taken = g ∷ g ∷ [];
}

Reach-reported : Reach listed 1 one_gauge reported
unfolding get_all_metrics
Reach-reported =
    next
      (next
        (next (next (next Reach-signalled (stop_polling refl refl)) (stop_gopsutil refl refl))
          (flush refl refl))
        (flush_put g [] refl (omega arith)))
      (flushed refl)

abbrev done : Agent
done = record reported { jobs = []; workers = stopped ∷ []; handled = g ∷ g ∷ [] }

Reach-done : Reach listed 1 one_gauge done
Reach-done =
    next
      (next
        (next
          (next (next Reach-reported (send [] [] main_context g refl))
            (receive [] [] g [] refl refl))
          (choose [] [] g refl))
        (send [] [] drain_context g refl))
      (stop [] [] refl refl refl)

-- The worker ends the first request after a second.
abbrev later : Agent
later = record signalled { elapsed = 1 }

abbrev sent : Agent
sent = record later { workers = idle ∷ []; handled = g ∷ [] }

remaining-bounds_example : 1 + remaining listed sent ≤ remaining listed signalled
remaining-bounds_example = remaining-bounds {rate_limit = 1} (
    outside {s = signalled} {t = later} pass refl
      (forward {s = later} {t = sent} (send [] [] main_context g refl) refl (ended sent)))

Reach-accounted_example : accounted one signalled ≡ total one (g ∷ [])
Reach-accounted_example = Reach-accounted one one_gauge Reach-signalled

Reach-IsSafe_example : IsSafe 1 reported
Reach-IsSafe_example = Reach-IsSafe one_gauge Reach-reported

-- run() sees the signal at once, and waits for the goroutines.
abbrev seen : Process
seen = record { agent = done; signalled = some 0; ending = none }

abbrev over : Process
over = record seen { ending = some graceful }

Moves-seen : Moves listed 1 (begin 1 one_gauge) seen
Moves-seen = then (Reach-Moves one_gauge Reach-done) (notice refl refl)

Moves-IsSettled_example : (done.cancelled ≡ true) × IsSettled one over graceful
Moves-IsSettled_example =
    Moves-IsSettled one_gauge one graceful (omega arith)
      (then Moves-seen (
        waited 0 refl refl
          (record { polled = refl; gopsutil_polled = refl; reported = refl; worked = refl })))
      refl

Moves-returns_example : (q : Process) × Moves listed 1 seen q × (q.ending ≡ some graceful)
Moves-returns_example = Moves-returns one_gauge (omega arith) Moves-seen refl

-- The signal comes after some seconds.
abbrev late : ℕ → Agent
late n = record at_start { elapsed = n }

Reach-late : (n : ℕ) → Reach listed 1 one_gauge (late n)
unfolding start
Reach-late zero = here
Reach-late (suc n) = next (Reach-late n) pass

snapshot : get_all_metrics listed one_gauge ≡ g ∷ []
unfolding get_all_metrics
snapshot = refl

server_url_plain : server_url "localhost:8080" ≡ "http://localhost:8080"
unfolding server_url behind
server_url_plain = refl
