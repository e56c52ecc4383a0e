-- ===== src/Agent/GrpcMode/Tests.antt =====
-- An agent in gRPC mode with one gauge: a batch at a tick, and then the signal.
use study_project_metrics_an.Base.{refl, true, false, [], ◌∷◌}
use study_project_metrics_an.Model.{Metrics}
use study_project_metrics_an.Fixtures.{listed, gauge_a}
use study_project_metrics_an.Agent.Collector.{Collector, get_all_metrics}
use study_project_metrics_an.Agent.GrpcMode.{
  finished, Agent, start, cancel, stop_polling, stop_gopsutil, tick, sent, flush, flushed, Reach,
  here, next,
}

abbrev one_gauge : Collector
one_gauge = record {
  gauge = ("a", 5) ∷ [];
  counter = [];
  buffer = [];
  batch_size = 1;
  endpoint = "";
}

abbrev g : Metrics
g = gauge_a 5

abbrev reported : Agent
reported = record (start one_gauge) { cancelled = true; batches = (g ∷ []) ∷ [] }

Reach-reported : Reach listed one_gauge reported
unfolding get_all_metrics
Reach-reported = next (next (next here (tick g [] refl refl)) (sent (g ∷ []) refl)) cancel

abbrev done : Agent
done = record reported {
  polling = false;
  gopsutil = false;
  reporter = finished;
  batches = (g ∷ []) ∷ (g ∷ []) ∷ [];
}

Reach-done : Reach listed one_gauge done
unfolding get_all_metrics
Reach-done =
    next
      (next (next (next Reach-reported (stop_polling refl refl)) (stop_gopsutil refl refl))
        (flush refl refl))
      (flushed (g ∷ []) refl)
