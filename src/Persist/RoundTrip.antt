-- ===== src/Persist/RoundTrip.antt =====
-- Loading a saved snapshot into a new storage gives back what the storage read.
use study_project_metrics_an.Base.{
  String, ◌≡◌, refl, ap, ◌∙◌, sym, false, Option, none, some, List, [], ◌∷◌, ◌++◌, map, arith,
  eq_iff,
}
use study_project_metrics_an.Base.Int64.{Int64, IsInt64, add64, zero-add64}
use study_project_metrics_an.Base.Assoc.{
  Assoc, lookup, insert, IsDistinct, IsListing, lookup-insert,
}
use study_project_metrics_an.Model.{Float64, Metrics}
use study_project_metrics_an.Wire.{Bytes, Json, IsJson}
use study_project_metrics_an.Storage.Memory.{
  MetricsStorage, Visit, new_mem_storage, gauge_metric, counter_metric, get_all_metrics, get_gauge,
  get_counter, copy_into, found, value_or_zero,
}
use study_project_metrics_an.Storage.Memory.Batch.{raised}
use study_project_metrics_an.Storage.Memory.Valid.{IsValid}
use study_project_metrics_an.Storage.Memory.Snapshot.{
  IsVisit, over, lookup-copy_into, get_all_metrics-IsListing,
}
use study_project_metrics_an.Persist.{
  Disk, Faults, final, gauge_entry, counter_entry, snapshot, save_metrics, load_metric, load_all,
  load_metrics,
}
use study_project_metrics_an.Persist.Save.{IsFresh, save_metrics-IsSaved, encodes_of_saved}

load_all-append :
    (xs ys : List Metrics) (m : MetricsStorage)
    → load_all (xs ++ ys) m ≡ load_all ys (load_all xs m)
unfolding load_all
load_all-append [] ys m = refl
load_all-append (x ∷ xs) ys m = load_all-append xs ys (load_metric x m)

-- Loading gauge entries writes them one after the other.
load_all-gauges :
    (l : Assoc Float64) (m : MetricsStorage)
    → load_all (map gauge_entry l) m ≡ record m { gauges = copy_into m.gauges l }
unfolding load_all gauge_metric copy_into
load_all-gauges [] m = refl
load_all-gauges ((k, v) ∷ l) m = load_all-gauges l (record m { gauges = insert k v m.gauges })

gauges-load_all-counters :
    (l : Assoc Int64) (m : MetricsStorage) → (load_all (map counter_entry l) m).gauges ≡ m.gauges
unfolding load_all counter_metric
gauges-load_all-counters [] m = refl
gauges-load_all-counters ((k, d) ∷ l) m =
    gauges-load_all-counters l (load_metric (counter_entry (k, d)) m)

-- Loading distinct counter entries adds each of them once.
counters-load_all-counters :
    (k : String) (l : Assoc Int64) (m : MetricsStorage)
    → IsDistinct l
    → lookup k (load_all (map counter_entry l) m).counters
      ≡ raised (lookup k l) (lookup k m.counters)
unfolding load_all counter_metric lookup
counters-load_all-counters k [] m h = refl
counters-load_all-counters k ((j, d) ∷ l) m (new, h) = ground (
  arith,
  counters-load_all-counters k l (load_metric (counter_entry (j, d)) m) h,
  lookup-insert j k (add64 (value_or_zero (lookup j m.counters)) d) m.counters,
  eq_iff j k,
)

-- What `raised` from an empty map and a listing of counters read agree on.
pub raised-in_range :
    (o : Option Int64) → ((d : Int64) → o ≡ some d → IsInt64 d) → raised o none ≡ o
raised-in_range none h = refl
raised-in_range (some d) h = ap some (zero-add64 d (h d refl))

-- Reading `disk` into a new storage succeeds and reads the same as `store`.
abbrev pub SameReads : Json → String → MetricsStorage → Disk → Type 0
SameReads json path store disk =
    let (loaded, err) = load_metrics json false path disk new_mem_storage in
    (err ≡ none)
    × ((k : String)
        → (get_gauge k loaded ≡ get_gauge k store) × (get_counter k loaded ≡ get_counter k store))

over-none : (o : Option Float64) → over o none ≡ o
over-none o = ground arith

module _ (k : String) (gauges : Assoc Float64) (counters : Assoc Int64) (m : MetricsStorage) where
  pub gauges-load_all :
      IsDistinct gauges
      → lookup k (load_all (map gauge_entry gauges ++ map counter_entry counters) m).gauges
        ≡ over (lookup k gauges) (lookup k m.gauges)
  gauges-load_all h =
      rw
        (
          load_all-append (map gauge_entry gauges) (map counter_entry counters),
          gauges-load_all-counters counters,
          load_all-gauges gauges,
          lookup-copy_into k m.gauges gauges h,
        )
        refl

  pub counters-load_all :
      IsDistinct counters
      → lookup k (load_all (map gauge_entry gauges ++ map counter_entry counters) m).counters
        ≡ raised (lookup k counters) (lookup k m.counters)
  counters-load_all h =
      rw
        (
          load_all-append (map gauge_entry gauges) (map counter_entry counters),
          load_all-gauges gauges,
          counters-load_all-counters k counters
              (record { gauges = copy_into m.gauges gauges; counters = m.counters }) h,
        )
        refl

-- The same of a new storage.
module _ (k : String) (gauges : Assoc Float64) (counters : Assoc Int64) where
  pub gauges-load_new :
      IsDistinct gauges
      → lookup k
          (load_all (map gauge_entry gauges ++ map counter_entry counters) new_mem_storage).gauges
        ≡ lookup k gauges
  unfolding new_mem_storage lookup
  gauges-load_new h =
      gauges-load_all k gauges counters new_mem_storage h ∙ over-none (lookup k gauges)

  pub counters-load_new :
      IsDistinct counters
      → ((d : Int64) → lookup k counters ≡ some d → IsInt64 d)
      → lookup k
          (load_all (map gauge_entry gauges ++ map counter_entry counters) new_mem_storage).counters
        ≡ lookup k counters
  unfolding new_mem_storage lookup
  counters-load_new h fits =
      counters-load_all k gauges counters new_mem_storage h
      ∙ raised-in_range (lookup k counters) fits

module _ (copying ranging : Visit) (store : MetricsStorage) (copies : IsVisit copying)
    (ranges : IsVisit ranging) (v : IsValid store) where
  -- The lists that saveMetrics visits are listings of the storage's maps.
  gauges-IsListing : IsListing store.gauges (ranging.gauges (get_all_metrics copying store).0)
  gauges-IsListing =
      let (l, _) = get_all_metrics-IsListing copying store copies v in
      let r = ranges.gauges_once _ l.distinct in
      record { distinct = r.distinct; same = λ k. r.same k ∙ l.same k }

  counters-IsListing : IsListing store.counters (ranging.counters (get_all_metrics copying store).1)
  counters-IsListing =
      let (_, l) = get_all_metrics-IsListing copying store copies v in
      let r = ranges.counters_once _ l.distinct in
      record { distinct = r.distinct; same = λ k. r.same k ∙ l.same k }

  -- Loading the list that saveMetrics encodes into a new storage gives every gauge and counter back.
  pub load_all-snapshot :
      (k : String)
      → (get_gauge k (load_all (snapshot copying ranging store) new_mem_storage)
          ≡ get_gauge k store)
        × (get_counter k (load_all (snapshot copying ranging store) new_mem_storage)
            ≡ get_counter k store)
  unfolding snapshot get_gauge get_counter
  load_all-snapshot k =
      let g = gauges-IsListing in
      let c = counters-IsListing in
      (
        ap found (gauges-load_new k _ _ g.distinct ∙ g.same k),
        ap found (
            counters-load_new k _ _ c.distinct (λ d e. v.in_range k d (sym (c.same k) ∙ e))
            ∙ c.same k),
      )

load_metrics-decoded :
    (json : Json) (path : String) (content : Bytes) (disk : Disk) (xs : List Metrics)
    → lookup path disk ≡ some content
    → json.decode_metrics content ≡ some xs
    → load_metrics json false path disk new_mem_storage ≡ (load_all xs new_mem_storage, none)
unfolding load_metrics
load_metrics-decoded json path content disk xs here decoded =
    rw (here, load_metrics) (rw (decoded, load_metrics))

-- A server that stops after a save without an error and starts again reads the same: if the storage
-- is valid, the loops visit each entry once and what was encoded decodes to itself, then loading
-- the saved file into a new storage returns no error and gives every gauge and every counter its
-- reading, a missing one included.
pub load_metrics-save_metrics :
    (json : Json) (faults : Faults) (copying ranging : Visit) (path : String)
    (store : MetricsStorage) (disk : Disk)
    → IsJson json
    → IsVisit copying
    → IsVisit ranging
    → IsValid store
    → IsFresh faults.temp_name path disk
    → (save_metrics json faults copying ranging path store disk).1 ≡ none
    → SameReads json path store
        (final disk (save_metrics json faults copying ranging path store disk).0)
load_metrics-save_metrics json faults copying ranging path store disk back copies ranges v fresh
      ok =
    let (content, encoded) = encodes_of_saved json faults copying ranging path store disk ok in
    let saved =
      save_metrics-IsSaved json faults copying ranging path store disk content encoded fresh in
    rw
      (load_metrics-decoded json path content
        (final disk (save_metrics json faults copying ranging path store disk).0)
        (snapshot copying ranging store) (saved.written ok)
        (back.metrics_back (snapshot copying ranging store) content encoded))
      (refl, load_all-snapshot copying ranging store copies ranges v)
