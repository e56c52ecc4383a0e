-- ===== src/Persist/Sync/Durable.antt =====
-- When the file of the synchronous storage has what a restart needs, and when it has not.
use study_project_metrics_an.Base.{
  String, ◌≡◌, refl, Option, none, some, List, ◌∷◌, ◌++◌, arith, All,
}
use study_project_metrics_an.Base.Int64.{Int64}
use study_project_metrics_an.Model.{Float64, Metrics}
use study_project_metrics_an.Wire.{IsJson}
use study_project_metrics_an.Storage.{Error, unknown_metric_type}
use study_project_metrics_an.Storage.Memory
use study_project_metrics_an.Storage.Memory.{MetricsStorage}
use study_project_metrics_an.Storage.Memory.Batch.{IsKnown, IsUnknown, batch_update-stops}
use study_project_metrics_an.Storage.Memory.Valid.{
  IsValid, update_gauge-IsValid, update_counter-IsValid, batch_update-IsValid,
}
use study_project_metrics_an.Storage.Memory.Snapshot.{IsVisit}
use study_project_metrics_an.Persist.{snapshot}
use study_project_metrics_an.Persist.Save.{IsFresh, save_metrics-marshal}
use study_project_metrics_an.Persist.RoundTrip.{SameReads, load_metrics-save_metrics}
use study_project_metrics_an.Persist.Sync.{
  Env, SyncStorage, attempt, save, update_gauge, update_counter, batch_update,
}

-- The writes that a client can ask for.
pub data Write : Type 0 where
  gauge : String → Float64 → Write
  counter : String → Int64 → Write
  batch : List Metrics → Write

-- What encoding/json and `range` promise: what was encoded decodes to itself, and the loops visit
-- each entry once.
pub record IsSound (env : Env) : Type 0 where
  pub codec : IsJson env.json
  pub copies : IsVisit env.copying
  pub ranges : IsVisit env.ranging

module _ (env : Env) where
  unfoldable pub write : Write → SyncStorage → SyncStorage × Option Error
  write (gauge name value) s = (update_gauge env name value s, none)
  write (counter name delta) s = (update_counter env name delta s, none)
  write (batch metrics) s = batch_update env metrics s

  -- The storage in memory once the write is applied.
  unfoldable pub applied : Write → SyncStorage → MetricsStorage
  applied (gauge name value) s = Memory.update_gauge name value s.mem
  applied (counter name delta) s = Memory.update_counter name delta s.mem
  applied (batch metrics) s = (Memory.batch_update metrics s.mem).0

  pub applied-IsValid : (w : Write) (s : SyncStorage) → IsValid s.mem → IsValid (applied w s)
  unfolding applied
  applied-IsValid (gauge name value) s v = update_gauge-IsValid name value s.mem v
  applied-IsValid (counter name delta) s v = update_counter-IsValid name delta s.mem v
  applied-IsValid (batch metrics) s v = batch_update-IsValid metrics s.mem v

  -- A write that returns no error is the write to memory and a save.
  write-saves :
      (w : Write) (s : SyncStorage)
      → (write w s).1 ≡ none
      → (write w s).0 ≡ save env (record s { mem = applied w s })
  unfolding write applied update_gauge update_counter batch_update
  write-saves (gauge name value) s h = refl
  write-saves (counter name delta) s h = refl
  write-saves (batch metrics) s h = ground arith

  module _ (sound : IsSound env) (w : Write) (s : SyncStorage) (v : IsValid s.mem) where
    -- Every write that returns no error and whose save succeeds is durable, if the storage is
    -- valid, the temporary file is fresh and json and the loops are sound: a server that is started
    -- on the file afterwards reads every gauge and every counter as the running one does.
    pub write-SameReads :
        IsFresh (env.faults s.saves).temp_name env.path s.disk
        → (write w s).1 ≡ none
        → (attempt env (record s { mem = applied w s })).1 ≡ none
        → SameReads env.json env.path (write w s).0.mem (write w s).0.disk
    write-SameReads fresh done ok = rw (write-saves w s done) (
        unfold save in
        load_metrics-save_metrics env.json (env.faults s.saves) env.copying env.ranging env.path
          (applied w s) s.disk sound.codec sound.copies sound.ranges (applied-IsValid w s v) fresh
          (unfold attempt in ok))

  -- While the snapshot does not encode, as with a gauge that is NaN or infinite, a write that
  -- returns no error changes the memory and leaves the disk as it was.
  pub write-lost :
      (w : Write) (s : SyncStorage)
      → (write w s).1 ≡ none
      → env.json.encode_metrics (snapshot env.copying env.ranging (applied w s)) ≡ none
      → ((write w s).0.mem ≡ applied w s) × ((write w s).0.disk ≡ s.disk)
  write-lost w s done bad = rw (write-saves w s done) (
      unfold save in
      (
        refl,
        rw (
            save_metrics-marshal env.json (env.faults s.saves) env.copying env.ranging env.path
              (applied w s) s.disk bad),
      ))

  -- A batch that stops at an unknown type is not saved: what stands before that type is in memory,
  -- and the disk is as it was.
  pub batch_update-unsaved :
      (xs ys : List Metrics) (bad : Metrics) (s : SyncStorage)
      → All IsKnown xs
      → IsUnknown bad
      → batch_update env (xs ++ bad ∷ ys) s ≡ (
        record s { mem = (Memory.batch_update xs s.mem).0 },
        some (unknown_metric_type bad.mtype),
      )
  unfolding batch_update
  batch_update-unsaved xs ys bad s h u =
      let e = batch_update-stops xs ys bad s.mem h u in rw (e, batch_update) (rw e)
