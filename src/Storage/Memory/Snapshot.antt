-- ===== src/Storage/Memory/Snapshot.antt =====
-- GetAllMetrics copies both maps, in whatever order the loops visit them.
use study_project_metrics_an.Base.{
  String, ◌≡◌, refl, ◌∙◌, Option, none, some, [], ◌∷◌, arith, eq_iff,
}
use study_project_metrics_an.Base.Int64.{Int64}
use study_project_metrics_an.Base.Assoc.{
  Assoc, lookup, insert, IsDistinct, IsListing, lookup-insert, insert-IsDistinct,
}
use study_project_metrics_an.Model.{Float64}
use study_project_metrics_an.Storage.Memory.{MetricsStorage, Visit, copy_into, get_all_metrics}
use study_project_metrics_an.Storage.Memory.Valid.{IsValid}

-- A `range` loop visits each entry of a map once.
pub record IsVisit (visit : Visit) : Type 0 where
  pub gauges_once : (m : Assoc Float64) → IsDistinct m → IsListing m (visit.gauges m)
  pub counters_once : (m : Assoc Int64) → IsDistinct m → IsListing m (visit.counters m)

module _ {ℓ} {V : Type ℓ} where
  abbrev pub over : Option V → Option V → Option V
  over (some v) o = some v
  over none o = o

  pub lookup-copy_into :
      (k : String) (copy l : Assoc V)
      → IsDistinct l
      → lookup k (copy_into copy l) ≡ over (lookup k l) (lookup k copy)
  unfolding copy_into lookup
  lookup-copy_into k copy [] h = refl
  lookup-copy_into k copy ((j, v) ∷ l) (new, h) =
      ground (arith, lookup-copy_into k (insert j v copy) l h, lookup-insert j k v copy, eq_iff j k)

  copy_into-IsDistinct : (copy l : Assoc V) → IsDistinct copy → IsDistinct (copy_into copy l)
  unfolding copy_into
  copy_into-IsDistinct copy [] h = h
  copy_into-IsDistinct copy ((j, v) ∷ l) h =
      copy_into-IsDistinct (insert j v copy) l (insert-IsDistinct j v copy h)

  pub copy_into-IsListing : (m l : Assoc V) → IsListing m l → IsListing m (copy_into [] l)
  copy_into-IsListing m l h = record {
    distinct = copy_into-IsDistinct [] l tt;
    same = λ k. lookup-copy_into k [] l h.distinct ∙ unfold lookup in ground (arith, h.same k);
  }

-- Of a valid storage GetAllMetrics returns copies that hold each entry once and read, at every
-- name, what the storage reads, whatever the order in which the loops visit the maps.
pub get_all_metrics-IsListing :
    (visit : Visit) (m : MetricsStorage)
    → IsVisit visit
    → IsValid m
    → IsListing m.gauges (get_all_metrics visit m).0
      × IsListing m.counters (get_all_metrics visit m).1
unfolding get_all_metrics
get_all_metrics-IsListing visit m once v = (
  copy_into-IsListing m.gauges (visit.gauges m.gauges)
      (once.gauges_once m.gauges v.gauges_distinct),
  copy_into-IsListing m.counters (visit.counters m.counters)
      (once.counters_once m.counters v.counters_distinct),
)
