-- ===== src/Storage/Memory/Laws.antt =====
-- The in-memory storage keeps the laws of the interface.
use study_project_metrics_an.Base.{String, ◌≡◌, refl, none, arith, ◌==◌, eq_iff, if◌then◌else◌}
use study_project_metrics_an.Base.Int64.{Int64, add64}
use study_project_metrics_an.Base.Assoc.{lookup-insert}
use study_project_metrics_an.Model.{Float64}
use study_project_metrics_an.Storage.{IsLawful}
use study_project_metrics_an.Storage.Memory.{
  MetricsStorage, Visit, update_gauge, update_counter, get_gauge, get_counter, mem_storage,
}

pub get_gauge-update_gauge :
    (k j : String) (v : Float64) (m : MetricsStorage)
    → get_gauge j (update_gauge k v m) ≡ (if k == j then (v, none) else get_gauge j m)
unfolding get_gauge update_gauge
get_gauge-update_gauge k j v m = ground (arith, lookup-insert k j v m.gauges)

pub get_counter-update_counter :
    (k j : String) (d : Int64) (m : MetricsStorage)
    → get_counter j (update_counter k d m)
      ≡ (if k == j then (add64 (get_counter k m).0 d, none) else get_counter j m)
unfolding get_counter update_counter
get_counter-update_counter k j d m = rw lookup-insert (ground (arith, eq_iff k j))

-- The in-memory storage is lawful: a gauge reads back the last value written to it, a counter the
-- wrapping sum of its deltas from 0, and neither changes the other or another name.
pub mem_storage-IsLawful : (visit : Visit) → IsLawful (mem_storage visit)
unfolding mem_storage
mem_storage-IsLawful visit = record {
  gauge_gauge = get_gauge-update_gauge;
  counter_gauge = λ k j v s. unfold get_counter update_gauge in refl;
  counter_counter = get_counter-update_counter;
  gauge_counter = λ k j d s. unfold get_gauge update_counter in refl;
}
