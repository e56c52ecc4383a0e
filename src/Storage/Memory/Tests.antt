-- ===== src/Storage/Memory/Tests.antt =====
-- The in-memory storage on concrete metrics.
use mathlib.Core.List.Perm
use study_project_metrics_an.Base.{◌≡◌, refl, inl, inr, none, List, [], ◌∷◌, arith, eq_iff, All}
use study_project_metrics_an.Base.Assoc.{lookup, insert}
use study_project_metrics_an.Base.Int64.{add64}
use study_project_metrics_an.Model.{Metrics, type_gauge, type_counter}
use study_project_metrics_an.Fixtures.{gauge_a, counter_n, histogram_h}
use study_project_metrics_an.Storage.Memory.{
  MetricsStorage, new_mem_storage, apply_metric, batch_update, get_gauge, get_counter, found,
}
use study_project_metrics_an.Storage.Memory.Batch.{
  IsKnown, IsUnknown, or_else, last_value, raised, total_delta, batch_update-reads,
}
use study_project_metrics_an.Storage.Memory.Order.{get_counter-batch_update_perm}

abbrev known : List Metrics
known = gauge_a 7 ∷ counter_n 3 ∷ counter_n 18446744073709551615 ∷ gauge_a 9 ∷ []

known-IsKnown : All IsKnown known
known-IsKnown = (inl refl, (inr refl, (inr refl, (inl refl, tt))))

histogram-IsUnknown : IsUnknown histogram_h
histogram-IsUnknown =
    (ground (arith, eq_iff "histogram" type_gauge), ground (arith, eq_iff "histogram" type_counter))

abbrev filled : MetricsStorage
filled = (batch_update known new_mem_storage).0

-- 3 and -1 add up to 2.
filled_counter : get_counter "n" filled ≡ (2, none)
unfolding get_counter batch_update apply_metric add64 new_mem_storage lookup insert
filled_counter = refl

filled_gauge : get_gauge "a" filled ≡ (9, none)
unfolding get_gauge batch_update apply_metric new_mem_storage lookup insert
filled_gauge = refl

batch_update-reads_example :
    (get_gauge "n" filled
      ≡ found (or_else (last_value "n" known) (lookup "n" new_mem_storage.gauges)))
    × (get_counter "n" filled
        ≡ found (raised (total_delta "n" known) (lookup "n" new_mem_storage.counters)))
batch_update-reads_example = batch_update-reads "n" known new_mem_storage known-IsKnown

get_counter-batch_update_perm_example :
    get_counter "n" (batch_update (counter_n 1 ∷ counter_n 2 ∷ []) new_mem_storage).0
    ≡ get_counter "n" (batch_update (counter_n 2 ∷ counter_n 1 ∷ []) new_mem_storage).0
get_counter-batch_update_perm_example =
    get_counter-batch_update_perm "n" (counter_n 1 ∷ counter_n 2 ∷ [])
      (counter_n 2 ∷ counter_n 1 ∷ []) new_mem_storage (Perm.swap (counter_n 2) (counter_n 1) [])
      (inr refl, (inr refl, tt)) (inr refl, (inr refl, tt))
