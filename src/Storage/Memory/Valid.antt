-- ===== src/Storage/Memory/Valid.antt =====
-- The invariant of the in-memory storage: one entry for a name, and counters within int64.
use study_project_metrics_an.Base.{
  String, ◌≡◌, Option, none, some, List, [], ◌∷◌, arith, ◌==◌, Option-cases, Bool-cases, inl, inr,
}
use study_project_metrics_an.Base.Int64.{Int64, IsInt64, add64, add64-IsInt64}
use study_project_metrics_an.Base.Assoc.{
  Assoc, lookup, insert, IsDistinct, lookup-insert, insert-IsDistinct,
}
use study_project_metrics_an.Model.{Float64, Metrics, type_gauge, type_counter}
use study_project_metrics_an.Storage.Memory.{
  MetricsStorage, new_mem_storage, update_gauge, update_counter, gauge_metric, counter_metric,
  apply_metric, batch_update, value_or_zero,
}

pub record IsValid (m : MetricsStorage) : Type 0 where
  pub gauges_distinct : IsDistinct m.gauges
  pub counters_distinct : IsDistinct m.counters
  pub in_range : (k : String) (d : Int64) → lookup k m.counters ≡ some d → IsInt64 d

-- A new storage is valid.
pub new_mem_storage-IsValid : IsValid new_mem_storage
unfolding new_mem_storage lookup
new_mem_storage-IsValid = record {
  gauges_distinct = tt;
  counters_distinct = tt;
  in_range = λ k d h. cc;
}

pub update_gauge-IsValid :
    (name : String) (value : Float64) (m : MetricsStorage)
    → IsValid m
    → IsValid (update_gauge name value m)
unfolding update_gauge
update_gauge-IsValid name value m v = record {
  gauges_distinct = insert-IsDistinct name value m.gauges v.gauges_distinct;
  counters_distinct = v.counters_distinct;
  in_range = v.in_range;
}

insert-in_range :
    (name : String) (d : Int64) (m : Assoc Int64)
    → IsInt64 d
    → ((k : String) (e : Int64) → lookup k m ≡ some e → IsInt64 e)
    → (k : String) (e : Int64) → lookup k (insert name d m) ≡ some e
    → IsInt64 e
insert-in_range name d m fits old k e h = ground (arith, lookup-insert name k d m, old k e)

pub update_counter-IsValid :
    (name : String) (delta : Int64) (m : MetricsStorage)
    → IsValid m
    → IsValid (update_counter name delta m)
unfolding update_counter
update_counter-IsValid name delta m v =
    let total = add64 (value_or_zero (lookup name m.counters)) delta in
    record {
      gauges_distinct = v.gauges_distinct;
      counters_distinct = insert-IsDistinct name total m.counters v.counters_distinct;
      in_range =
          insert-in_range name total m.counters
            (add64-IsInt64 (value_or_zero (lookup name m.counters)) delta) v.in_range;
    }

pub gauge_metric-IsValid :
    (id : String) (o : Option Float64) (m : MetricsStorage)
    → IsValid m
    → IsValid (gauge_metric id o m)
unfolding gauge_metric
gauge_metric-IsValid id none m v = v
gauge_metric-IsValid id (some value) m v = update_gauge-IsValid id value m v

pub counter_metric-IsValid :
    (id : String) (o : Option Int64) (m : MetricsStorage)
    → IsValid m
    → IsValid (counter_metric id o m)
unfolding counter_metric
counter_metric-IsValid id none m v = v
counter_metric-IsValid id (some delta) m v = update_counter-IsValid id delta m v

apply_metric-IsValid : (x : Metrics) (m : MetricsStorage) → IsValid m → IsValid (apply_metric x m).0
unfolding apply_metric
apply_metric-IsValid x m v = elim (Bool-cases (x.mtype == type_gauge)) [
  | inl g ↦ rw g (gauge_metric-IsValid x.id x.value m v)
  | inr ng ↦ elim (Bool-cases (x.mtype == type_counter)) [
    | inl c ↦ rw (ng, c) (counter_metric-IsValid x.id x.delta m v)
    | inr nc ↦ rw (ng, nc) v
  ]
]

-- Every batch, whether it succeeds or stops at an unknown type, keeps the storage valid: no name
-- gets two entries, and every counter stays within int64.
pub batch_update-IsValid :
    (xs : List Metrics) (m : MetricsStorage) → IsValid m → IsValid (batch_update xs m).0
unfolding batch_update
batch_update-IsValid [] m v = v
batch_update-IsValid (x ∷ xs) m v = elim (Option-cases (apply_metric x m).1) [
  | inl fine ↦
      rw (fine, batch_update)
        (batch_update-IsValid xs (apply_metric x m).0 (apply_metric-IsValid x m v))
  | inr (e, failed) ↦ rw (failed, batch_update) (apply_metric-IsValid x m v)
]
