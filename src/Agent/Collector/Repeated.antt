-- ===== src/Agent/Collector/Repeated.antt =====
-- The agent's snapshots, one after the other, in a server that has metrics already.
use study_project_metrics_an.Base.{
  String, ◌≡◌, ◌≢◌, refl, ap, ◌∙◌, Option, none, some, List, [], ◌∷◌, ◌<◌, ◌^◌, All, arith,
}
use study_project_metrics_an.Base.Int64.{Int64, add64}
use study_project_metrics_an.Base.Assoc.{lookup}
use study_project_metrics_an.Model.{Float64}
use study_project_metrics_an.Storage.Memory.{
  MetricsStorage, Visit, new_mem_storage, batch_update, get_gauge, get_counter, found,
}
use study_project_metrics_an.Storage.Memory.Batch.{plus, raised, raised-raised}
use study_project_metrics_an.Storage.Memory.Snapshot.{IsVisit, over}
use study_project_metrics_an.Persist.RoundTrip.{gauges-load_all, counters-load_all}
use study_project_metrics_an.Agent.Collector.{Collector, get_all_metrics}
use study_project_metrics_an.Agent.Collector.Report.{IsValid, batch_update-entries}

-- The storage after the snapshots of these states of the collector.
unfoldable pub after_reports : Visit → List Collector → MetricsStorage → MetricsStorage
after_reports visit [] m = m
after_reports visit (c ∷ cs) m = after_reports visit cs (batch_update (get_all_metrics visit c) m).0

-- What the last snapshot that has the gauge gives it.
abbrev pub last_gauge : String → List Collector → Option Float64
last_gauge k [] = none
last_gauge k (c ∷ cs) = over (last_gauge k cs) (lookup k c.gauge)

-- The wrapping sum of what all snapshots give the counter.
abbrev pub summed : String → List Collector → Option Int64
summed k [] = none
summed k (c ∷ cs) = plus (lookup k c.counter) (summed k cs)

over_assoc : (a b c : Option Float64) → over a (over b c) ≡ over (over a b) c
over_assoc none b c = refl
over_assoc (some v) b c = refl

module _ (visit : Visit) (once : IsVisit visit) (k : String) where
  gauges-report :
      (c : Collector) (m : MetricsStorage)
      → IsValid c
      → lookup k (batch_update (get_all_metrics visit c) m).0.gauges
        ≡ over (lookup k c.gauge) (lookup k m.gauges)
  unfolding get_all_metrics
  gauges-report c m v =
      let g = once.gauges_once c.gauge v.gauges_distinct in
      ap (λ p. lookup k p.0.gauges)
        (batch_update-entries (visit.gauges c.gauge) (visit.counters c.counter) m)
      ∙ gauges-load_all k (visit.gauges c.gauge) (visit.counters c.counter) m g.distinct
      ∙ ap (λ o. over o (lookup k m.gauges)) (g.same k)

  counters-report :
      (c : Collector) (m : MetricsStorage)
      → IsValid c
      → lookup k (batch_update (get_all_metrics visit c) m).0.counters
        ≡ raised (lookup k c.counter) (lookup k m.counters)
  unfolding get_all_metrics
  counters-report c m v =
      let d = once.counters_once c.counter v.counters_distinct in
      ap (λ p. lookup k p.0.counters)
        (batch_update-entries (visit.gauges c.gauge) (visit.counters c.counter) m)
      ∙ counters-load_all k (visit.gauges c.gauge) (visit.counters c.counter) m d.distinct
      ∙ ap (λ o. raised o (lookup k m.counters)) (d.same k)

  gauges-after_reports :
      (cs : List Collector) (m : MetricsStorage)
      → All IsValid cs
      → lookup k (after_reports visit cs m).gauges ≡ over (last_gauge k cs) (lookup k m.gauges)
  unfolding after_reports
  gauges-after_reports [] m h = refl
  gauges-after_reports (c ∷ cs) m (v, h) =
      gauges-after_reports cs (batch_update (get_all_metrics visit c) m).0 h
      ∙ ap (over (last_gauge k cs)) (gauges-report c m v)
      ∙ over_assoc (last_gauge k cs) (lookup k c.gauge) (lookup k m.gauges)

  counters-after_reports :
      (cs : List Collector) (m : MetricsStorage)
      → All IsValid cs
      → lookup k (after_reports visit cs m).counters ≡ raised (summed k cs) (lookup k m.counters)
  unfolding after_reports
  counters-after_reports [] m h = refl
  counters-after_reports (c ∷ cs) m (v, h) =
      counters-after_reports cs (batch_update (get_all_metrics visit c) m).0 h
      ∙ ap (raised (summed k cs)) (counters-report c m v)
      ∙ raised-raised (lookup k c.counter) (summed k cs) (lookup k m.counters)

  -- When a server applies the snapshots that a valid agent takes one after the other, it reads for
  -- every gauge the value in the last snapshot that has it, and for every counter what it read
  -- before plus the sum of the values in all snapshots, modulo 2 ^ 64. As the agent does not set its
  -- counters back, what one snapshot has counted is added again with each later one.
  pub after_reports-reads :
      (cs : List Collector) (m : MetricsStorage)
      → All IsValid cs
      → (get_gauge k (after_reports visit cs m)
          ≡ found (over (last_gauge k cs) (lookup k m.gauges)))
        × (get_counter k (after_reports visit cs m)
            ≡ found (raised (summed k cs) (lookup k m.counters)))
  unfolding get_gauge get_counter
  after_reports-reads cs m h =
      (ap found (gauges-after_reports cs m h), ap found (counters-after_reports cs m h))

  -- Two snapshots of one state make a new server read twice what the agent has counted.
  pub counter_doubled :
      (c : Collector) (d : Int64)
      → IsValid c
      → lookup k c.counter ≡ some d
      → 0 < d
      → d < 2 ^ 63
      → (get_counter k (after_reports visit (c ∷ c ∷ []) new_mem_storage) ≡ (add64 d d, none))
        × (add64 d d ≢ d)
  unfolding new_mem_storage lookup add64
  counter_doubled c d v e p h = (
    (after_reports-reads (c ∷ c ∷ []) new_mem_storage (v, (v, tt))).1 ∙ rw e (ground arith),
    λ same. absurd (omega arith),
  )
