-- ===== src/Persist.antt =====
-- loadMetrics, saveMetrics and dirOf of cmd/server/main.go: the snapshot file of the server.
pub mod Save
pub mod Dir
pub mod RoundTrip
pub mod Sync
mod Tests
use study_project_metrics_an.Base.{
  ℕ, zero, suc, String, Bool, true, false, ◌||◌, Option, none, some, List, [], ◌∷◌, ◌++◌, map, ◌==◌,
  eqb, if◌then◌else◌, length, take, get_or,
}
use study_project_metrics_an.Base.Int64.{Int64}
use study_project_metrics_an.Base.Assoc.{Assoc, lookup, insert, remove}
use study_project_metrics_an.Model.{Float64, Metrics, type_counter, type_gauge}
use study_project_metrics_an.Wire.{Bytes, Json}
use study_project_metrics_an.Storage.Memory.{
  MetricsStorage, Visit, get_all_metrics, gauge_metric, counter_metric,
}

-- The files by name.
abbrev pub Disk : Type 0
Disk = Assoc Bytes

-- The last of the states that a save goes through.
abbrev pub final : Disk → List Disk → Disk
final disk [] = disk
final disk (d ∷ ds) = final d ds

-- How the calls of the operating system fare in one save: the name of the temporary file, or that
-- none was created; how many bytes are written before a failure, if there is one; whether closing
-- and renaming fail.
pub record Faults : Type 0 where
  pub temp_name : Option String
  pub write_fails_after : Option ℕ
  pub close_fails : Bool
  pub rename_fails : Bool

pub data SaveError : Type 0 where
  marshal create write close rename : SaveError

abbrev pub gauge_entry : String × Float64 → Metrics
gauge_entry (id, val) = record {
  id = id;
  mtype = type_gauge;
  delta = none;
  value = some val;
  hash = "";
}

abbrev pub counter_entry : String × Int64 → Metrics
counter_entry (id, delta) = record {
  id = id;
  mtype = type_counter;
  delta = some delta;
  value = none;
  hash = "";
}

-- The list that saveMetrics encodes. `copying` is the order in which GetAllMetrics visits the maps,
-- `ranging` that in which saveMetrics visits the copies.
unfoldable pub snapshot : Visit → Visit → MetricsStorage → List Metrics
snapshot copying ranging store =
    let (gauges, counters) = get_all_metrics copying store in
    map gauge_entry (ranging.gauges gauges) ++ map counter_entry (ranging.counters counters)

-- Closing the written temporary file and renaming it over the snapshot.
unfoldable pub close_and_rename :
    Faults → String → String → Bytes → Disk → List Disk × Option SaveError
close_and_rename faults path tmp content disk =
    if faults.close_fails
    then (remove tmp disk ∷ [], some close)
    else if faults.rename_fails
    then (remove tmp disk ∷ [], some rename)
    else (insert path content (remove tmp disk) ∷ [], none)

-- From the creation of the temporary file on. The result lists the states of the disk one after the
-- other, so that a kill between two calls leaves one of them.
unfoldable pub write_temp : Faults → String → String → Bytes → Disk → List Disk × Option SaveError
unfolding close_and_rename
write_temp faults path tmp content disk = elim faults.write_fails_after [
  | some n ↦
      let partial = insert tmp (take n content) disk in
      (insert tmp [] disk ∷ partial ∷ remove tmp partial ∷ [], some write)
  | none ↦
      let written = insert tmp content disk in
      let (after, err) = close_and_rename faults path tmp content written in
      (insert tmp [] disk ∷ written ∷ after, err)
]

-- saveMetrics once the data is marshalled.
unfoldable pub write_file : Faults → String → Bytes → Disk → List Disk × Option SaveError
unfolding write_temp
write_file faults path content disk = elim faults.temp_name [
  | none ↦ ([], some create)
  | some tmp ↦ write_temp faults path tmp content disk
]

unfoldable pub save_metrics :
    Json → Faults → Visit → Visit → String → MetricsStorage → Disk → List Disk × Option SaveError
unfolding write_file
save_metrics json faults copying ranging path store disk =
    elim (json.encode_metrics (snapshot copying ranging store)) [
      | none ↦ ([], some marshal)
      | some content ↦ write_file faults path content disk
    ]

pub data LoadError : Type 0 where
  read unmarshal : LoadError

-- The body of the loop of loadMetrics; an unknown type is passed over.
unfoldable pub load_metric : Metrics → MetricsStorage → MetricsStorage
load_metric m store =
    if m.mtype == type_gauge
    then gauge_metric m.id m.value store
    else if m.mtype == type_counter
    then counter_metric m.id m.delta store
    else store

unfoldable pub load_all : List Metrics → MetricsStorage → MetricsStorage
unfolding load_metric
load_all [] store = store
load_all (m ∷ metrics) store = load_all metrics (load_metric m store)

-- `read_fails`: the file is there and cannot be read. A file that is not there is no error.
unfoldable pub load_metrics :
    Json → Bool → String → Disk → MetricsStorage → MetricsStorage × Option LoadError
unfolding load_all
load_metrics json read_fails path disk store = elim (lookup path disk) [
  | none ↦ (store, none)
  | some content ↦ if read_fails then (store, some read) else elim (json.decode_metrics content) [
    | none ↦ (store, some unmarshal)
    | some metrics ↦ (load_all metrics store, none)
  ]
]

abbrev is_separator : ℕ → Bool
is_separator c = eqb c b'/' || eqb c 92

-- The loop of dirOf over the bytes of a path, with `i` bytes still to look at from the right.
dir_from : Bytes → ℕ → Bytes
dir_from path zero = b'.' ∷ []
dir_from path (suc i) = if is_separator (get_or path i 0) then take i path else dir_from path i

unfoldable pub dir_of : Bytes → Bytes
unfolding dir_from
dir_of path = dir_from path (length path)
