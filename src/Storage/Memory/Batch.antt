-- ===== src/Storage/Memory/Batch.antt =====
-- What BatchUpdate of the in-memory storage does to every gauge and counter.
use study_project_metrics_an.Base.{
  String, ◌≡◌, refl, ap, ◌≢◌, ◌⊎◌, inl, inr, ◌↔◌, ◌&&◌, Option, none, some, List, [], ◌∷◌, ◌++◌,
  arith, ◌==◌, eq_iff, if◌then◌else◌, All,
}
use study_project_metrics_an.Base.Int64.{Int64, add64, add64_assoc}
use study_project_metrics_an.Base.Assoc.{lookup, lookup-insert}
use study_project_metrics_an.Model.{
  Float64, Metrics, type_counter, type_gauge, counter-false_of_gauge,
}
use study_project_metrics_an.Storage.{unknown_metric_type}
use study_project_metrics_an.Storage.Memory.{
  MetricsStorage, apply_metric, batch_update, get_gauge, get_counter, gauge_metric, counter_metric,
  value_or_zero, found,
}

abbrev pub IsKnown : Metrics → Type 0
IsKnown x = (x.mtype ≡ type_gauge) ⊎ (x.mtype ≡ type_counter)

abbrev pub IsUnknown : Metrics → Type 0
IsUnknown x = (x.mtype ≢ type_gauge) × (x.mtype ≢ type_counter)

abbrev pub gauge_value : String → Metrics → Option Float64
gauge_value k x = if x.mtype == type_gauge && x.id == k then x.value else none

abbrev pub counter_delta : String → Metrics → Option Int64
counter_delta k x = if x.mtype == type_counter && x.id == k then x.delta else none

abbrev pub or_else : Option Float64 → Option Float64 → Option Float64
or_else (some v) o = some v
or_else none o = o

abbrev pub plus : Option Int64 → Option Int64 → Option Int64
plus none o = o
plus (some a) none = some a
plus (some a) (some b) = some (add64 a b)

-- The last value that a list of metrics gives the gauge `k`.
unfoldable pub last_value : String → List Metrics → Option Float64
last_value k [] = none
last_value k (x ∷ xs) = or_else (last_value k xs) (gauge_value k x)

-- The wrapping sum of the deltas that a list of metrics gives the counter `k`.
unfoldable pub total_delta : String → List Metrics → Option Int64
total_delta k [] = none
total_delta k (x ∷ xs) = plus (counter_delta k x) (total_delta k xs)

abbrev pub raised : Option Int64 → Option Int64 → Option Int64
raised none o = o
raised (some d) o = some (add64 (value_or_zero o) d)

module _ (k id : String) (m : MetricsStorage) where
  gauges-gauge_metric :
      (o : Option Float64)
      → lookup k (gauge_metric id o m).gauges
        ≡ or_else (if id == k then o else none) (lookup k m.gauges)
  unfolding gauge_metric
  gauges-gauge_metric none = ground arith
  gauges-gauge_metric (some v) = rw lookup-insert (ground arith)

  counters-counter_metric :
      (o : Option Int64)
      → lookup k (counter_metric id o m).counters
        ≡ raised (if id == k then o else none) (lookup k m.counters)
  unfolding counter_metric
  counters-counter_metric none = ground arith
  counters-counter_metric (some d) = rw lookup-insert (ground (arith, eq_iff id k))

  counters-gauge_metric : (o : Option Float64) → (gauge_metric id o m).counters ≡ m.counters
  unfolding gauge_metric
  counters-gauge_metric o = ground arith

  gauges-counter_metric : (o : Option Int64) → (counter_metric id o m).gauges ≡ m.gauges
  unfolding counter_metric
  gauges-counter_metric o = ground arith

module _ (k : String) (x : Metrics) (m : MetricsStorage) where
  gauges-apply_metric :
      lookup k (apply_metric x m).0.gauges ≡ or_else (gauge_value k x) (lookup k m.gauges)
  unfolding apply_metric
  gauges-apply_metric =
      ground (arith, gauges-gauge_metric k x.id m x.value, gauges-counter_metric k x.id m x.delta)

  counters-apply_metric :
      lookup k (apply_metric x m).0.counters ≡ raised (counter_delta k x) (lookup k m.counters)
  unfolding apply_metric
  counters-apply_metric = ground (
    arith,
    counter-false_of_gauge x.mtype,
    counters-counter_metric k x.id m x.delta,
    counters-gauge_metric k x.id m x.value,
  )

apply_metric-known : (x : Metrics) (m : MetricsStorage) → IsKnown x → (apply_metric x m).1 ≡ none
unfolding apply_metric
apply_metric-known x m h = ground (arith, eq_iff x.mtype type_gauge, eq_iff x.mtype type_counter)

apply_metric-unknown :
    (x : Metrics) (m : MetricsStorage)
    → IsUnknown x
    → apply_metric x m ≡ (m, some (unknown_metric_type x.mtype))
unfolding apply_metric
apply_metric-unknown x m h = ground (arith, eq_iff x.mtype type_gauge, eq_iff x.mtype type_counter)

or_else_assoc : (a b c : Option Float64) → or_else a (or_else b c) ≡ or_else (or_else a b) c
or_else_assoc none b c = refl
or_else_assoc (some v) b c = refl

pub raised-raised : (a b c : Option Int64) → raised b (raised a c) ≡ raised (plus a b) c
raised-raised none b c = refl
raised-raised (some a) none c = refl
raised-raised (some a) (some b) c = ground (arith, add64_assoc (value_or_zero c) a b)

Known-cases : (x : Metrics) → IsKnown x ⊎ IsUnknown x
Known-cases x = ground (arith, eq_iff x.mtype type_gauge, eq_iff x.mtype type_counter)

-- One round of the loop, for a metric of a known type.
batch_update-cons :
    (x : Metrics) (xs : List Metrics) (m : MetricsStorage)
    → IsKnown x
    → batch_update (x ∷ xs) m ≡ batch_update xs (apply_metric x m).0
unfolding batch_update
batch_update-cons x xs m h = ground (arith, apply_metric-known x m h)

gauges-batch_update :
    (k : String) (xs : List Metrics) (m : MetricsStorage)
    → All IsKnown xs
    → lookup k (batch_update xs m).0.gauges ≡ or_else (last_value k xs) (lookup k m.gauges)
unfolding last_value
gauges-batch_update k [] m h = unfold batch_update in refl
gauges-batch_update k (x ∷ xs) m (p, h) =
    rw
      (
        batch_update-cons x xs m p,
        gauges-batch_update k xs (apply_metric x m).0 h,
        gauges-apply_metric k x m,
      )
      (or_else_assoc (last_value k xs) (gauge_value k x) (lookup k m.gauges))

counters-batch_update :
    (k : String) (xs : List Metrics) (m : MetricsStorage)
    → All IsKnown xs
    → lookup k (batch_update xs m).0.counters ≡ raised (total_delta k xs) (lookup k m.counters)
unfolding total_delta
counters-batch_update k [] m h = unfold batch_update in refl
counters-batch_update k (x ∷ xs) m (p, h) =
    rw
      (
        batch_update-cons x xs m p,
        counters-batch_update k xs (apply_metric x m).0 h,
        counters-apply_metric k x m,
      )
      (raised-raised (counter_delta k x) (total_delta k xs) (lookup k m.counters))

-- After a batch of known types a gauge holds the last value that the batch gives it, or else what
-- it held before, and a counter what it held before, or 0, plus the sum of the batch's deltas for
-- it, modulo 2 ^ 64; a name that the batch gives nothing reads as before.
pub batch_update-reads :
    (k : String) (xs : List Metrics) (m : MetricsStorage)
    → All IsKnown xs
    → (get_gauge k (batch_update xs m).0 ≡ found (or_else (last_value k xs) (lookup k m.gauges)))
      × (get_counter k (batch_update xs m).0
          ≡ found (raised (total_delta k xs) (lookup k m.counters)))
unfolding get_gauge get_counter
batch_update-reads k xs m h =
    (ap found (gauges-batch_update k xs m h), ap found (counters-batch_update k xs m h))

-- A batch is not undone: with an unknown type behind metrics of known types, BatchUpdate returns
-- the error for that type, what stands before it stays applied, and what stands after it is not
-- looked at.
pub batch_update-stops :
    (xs ys : List Metrics) (bad : Metrics) (m : MetricsStorage)
    → All IsKnown xs
    → IsUnknown bad
    → batch_update (xs ++ bad ∷ ys) m
      ≡ ((batch_update xs m).0, some (unknown_metric_type bad.mtype))
batch_update-stops [] ys bad m h u =
    unfold batch_update in ground (arith, apply_metric-unknown bad m u)
batch_update-stops (x ∷ xs) ys bad m (p, h) u =
    rw (batch_update-cons x (xs ++ bad ∷ ys) m p, batch_update-cons x xs m p)
      (batch_update-stops xs ys bad (apply_metric x m).0 h u)

-- A batch succeeds exactly when every metric in it has one of the two known types.
pub batch_update-succeeds_iff :
    (xs : List Metrics) (m : MetricsStorage) → ((batch_update xs m).1 ≡ none) ↔ All IsKnown xs
batch_update-succeeds_iff [] m = unfold batch_update in ground arith
batch_update-succeeds_iff (x ∷ xs) m = elim (Known-cases x) [
  | inl known ↦ rw (batch_update-cons x xs m known) (
      let (to, from) = batch_update-succeeds_iff xs (apply_metric x m).0 in
      (λ e. (known, to e), λ h. from h.1))
  | inr unknown ↦ rw (batch_update-stops [] xs x m tt unknown) (ground arith)
]
