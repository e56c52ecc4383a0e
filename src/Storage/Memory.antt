-- ===== src/Storage/Memory.antt =====
-- MetricsStorage of internal/storage/storage.go. Each method runs under the mutex from its first
-- line to its last, so a method is one step from a state to the next.
pub mod Laws
pub mod Batch
pub mod Order
pub mod Valid
pub mod Snapshot
mod Tests
use study_project_metrics_an.Base.{String, Option, none, some, List, [], ◌∷◌, ◌==◌, if◌then◌else◌}
use study_project_metrics_an.Base.Int64.{Int64, add64}
use study_project_metrics_an.Base.Assoc.{Assoc, lookup, insert}
use study_project_metrics_an.Model.{Float64, Metrics, type_counter, type_gauge}
use study_project_metrics_an.Storage.{Error, metric_not_found, unknown_metric_type, Storage}

pub record MetricsStorage : Type 0 where
  pub gauges : Assoc Float64
  pub counters : Assoc Int64

unfoldable pub new_mem_storage : MetricsStorage
new_mem_storage = record { gauges = []; counters = [] }

-- `m[k]` reads 0 at a missing key.
abbrev pub value_or_zero : Option Int64 → Int64
value_or_zero none = 0
value_or_zero (some v) = v

unfoldable pub update_gauge : String → Float64 → MetricsStorage → MetricsStorage
update_gauge name value m = record m { gauges = insert name value m.gauges }

unfoldable pub update_counter : String → Int64 → MetricsStorage → MetricsStorage
update_counter name value m = record m {
  counters = insert name (add64 (value_or_zero (lookup name m.counters)) value) m.counters;
}

-- `value, exists := …; if !exists { return 0, ErrMetricNotFound }`
abbrev pub found : Option Int64 → Int64 × Option Error
found none = (0, some metric_not_found)
found (some value) = (value, none)

unfoldable pub get_gauge : String → MetricsStorage → Float64 × Option Error
get_gauge name m = found (lookup name m.gauges)

unfoldable pub get_counter : String → MetricsStorage → Int64 × Option Error
get_counter name m = found (lookup name m.counters)

unfoldable pub gauge_metric : String → Option Float64 → MetricsStorage → MetricsStorage
unfolding update_gauge
gauge_metric id none m = m
gauge_metric id (some value) m = update_gauge id value m

unfoldable pub counter_metric : String → Option Int64 → MetricsStorage → MetricsStorage
unfolding update_counter
counter_metric id none m = m
counter_metric id (some delta) m = update_counter id delta m

-- The body of the loop of `BatchUpdate`: its `switch`, with the error of the `default` case.
unfoldable pub apply_metric : Metrics → MetricsStorage → MetricsStorage × Option Error
unfolding gauge_metric counter_metric
apply_metric metric m =
    if metric.mtype == type_gauge
    then (gauge_metric metric.id metric.value m, none)
    else if metric.mtype == type_counter
    then (counter_metric metric.id metric.delta m, none)
    else (m, some (unknown_metric_type metric.mtype))

unfoldable pub batch_update : List Metrics → MetricsStorage → MetricsStorage × Option Error
batch_update [] m = (m, none)
batch_update (metric ∷ metrics) m =
    let (m', err) = apply_metric metric m in
    elim err [ none ↦ batch_update metrics m' | some e ↦ (m', some e) ]

-- `for k, v := range m { copy[k] = v }` over the visited entries
unfoldable pub copy_into {ℓ} : {V : Type ℓ} → Assoc V → Assoc V → Assoc V
copy_into copy [] = copy
copy_into copy ((k, v) ∷ visited) = copy_into (insert k v copy) visited

-- The order in which a `range` loop visits a map, for both kinds of map.
pub record Visit : Type 0 where
  pub gauges : Assoc Float64 → Assoc Float64
  pub counters : Assoc Int64 → Assoc Int64

unfoldable pub get_all_metrics : Visit → MetricsStorage → Assoc Float64 × Assoc Int64
unfolding copy_into
get_all_metrics visit m =
    (copy_into [] (visit.gauges m.gauges), copy_into [] (visit.counters m.counters))

unfoldable pub ping : MetricsStorage → Option Error
ping m = none

unfoldable pub close : MetricsStorage → Option Error
close m = none

-- MetricsStorage as an implementation of the interface.
unfoldable pub mem_storage : Visit → Storage MetricsStorage
mem_storage visit = record {
  update_gauge = update_gauge;
  update_counter = update_counter;
  batch_update = batch_update;
  get_gauge = get_gauge;
  get_counter = get_counter;
  get_all_metrics = get_all_metrics visit;
  ping = ping;
}
