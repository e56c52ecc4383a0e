-- ===== src/Agent/Collector/Report.antt =====
-- The agent's snapshot as one batch in an empty server.
use study_project_metrics_an.Base.{String, ◌≡◌, refl, ap, ◌∙◌, sym, none, some, [], ◌∷◌, ◌++◌, map}
use study_project_metrics_an.Base.Int64.{Int64, IsInt64}
use study_project_metrics_an.Base.Assoc.{Assoc, lookup, IsDistinct}
use study_project_metrics_an.Model.{Float64}
use study_project_metrics_an.Storage.Memory.{
  MetricsStorage, Visit, new_mem_storage, apply_metric, batch_update, get_gauge, get_counter, found,
}
use study_project_metrics_an.Storage.Memory.Snapshot.{IsVisit}
use study_project_metrics_an.Persist.{gauge_entry, counter_entry, load_metric, load_all}
use study_project_metrics_an.Persist.RoundTrip.{gauges-load_new, counters-load_new}
use study_project_metrics_an.Agent.Collector.{Collector, get_all_metrics}

-- A collector's maps hold each name once, and its counters are int64.
pub record IsValid (c : Collector) : Type 0 where
  pub gauges_distinct : IsDistinct c.gauge
  pub counters_distinct : IsDistinct c.counter
  pub in_range : (k : String) (d : Int64) → lookup k c.counter ≡ some d → IsInt64 d

batch_update-counters :
    (l : Assoc Int64) (m : MetricsStorage)
    → batch_update (map counter_entry l) m ≡ (load_all (map counter_entry l) m, none)
unfolding batch_update apply_metric load_all
batch_update-counters [] m = refl
batch_update-counters ((k, d) ∷ l) m =
    batch_update-counters l (load_metric (counter_entry (k, d)) m)

pub batch_update-entries :
    (gs : Assoc Float64) (l : Assoc Int64) (m : MetricsStorage)
    → batch_update (map gauge_entry gs ++ map counter_entry l) m
      ≡ (load_all (map gauge_entry gs ++ map counter_entry l) m, none)
unfolding batch_update apply_metric load_all
batch_update-entries [] l m = batch_update-counters l m
batch_update-entries ((k, v) ∷ gs) l m =
    batch_update-entries gs l (load_metric (gauge_entry (k, v)) m)

-- The snapshot of a valid agent, applied as one batch to an empty storage, returns no error, and
-- the storage then reads every gauge and every counter as the agent holds it, a missing one
-- included, whatever the order in which the agent visits its maps.
pub batch_update-get_all_metrics :
    (visit : Visit) (c : Collector) (k : String)
    → IsVisit visit
    → IsValid c
    → ((batch_update (get_all_metrics visit c) new_mem_storage).1 ≡ none)
      × (get_gauge k (batch_update (get_all_metrics visit c) new_mem_storage).0
          ≡ found (lookup k c.gauge))
      × (get_counter k (batch_update (get_all_metrics visit c) new_mem_storage).0
          ≡ found (lookup k c.counter))
unfolding get_all_metrics get_gauge get_counter
batch_update-get_all_metrics visit c k once v =
    let g = once.gauges_once c.gauge v.gauges_distinct in
    let d = once.counters_once c.counter v.counters_distinct in
    let e =
      batch_update-entries (visit.gauges c.gauge) (visit.counters c.counter) new_mem_storage in
    (
      ap (λ p. p.1) e,
      ap (λ p. found (lookup k p.0.gauges)) e
          ∙ ap found (
              gauges-load_new k (visit.gauges c.gauge) (visit.counters c.counter) g.distinct
              ∙ g.same k),
      ap (λ p. found (lookup k p.0.counters)) e
          ∙ ap found (
              counters-load_new k (visit.gauges c.gauge) (visit.counters c.counter) d.distinct
                (λ n h. v.in_range k n (sym (d.same k) ∙ h))
              ∙ d.same k),
    )
