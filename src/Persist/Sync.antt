-- ===== src/Persist/Sync.antt =====
-- syncStorage of cmd/server/main.go: the in-memory storage that saves its file after every write.
pub mod Durable
use study_project_metrics_an.Base.{
  ℕ, suc, String, ◌≡◌, refl, Option, none, some, List, [], ◌∷◌, ◌++◌, arith, All, Option-cases, inl,
  inr,
}
use study_project_metrics_an.Base.Int64.{Int64}
use study_project_metrics_an.Model.{Float64, Metrics}
use study_project_metrics_an.Wire.{Json, IsJson}
use study_project_metrics_an.Storage.{Error, unknown_metric_type, Storage, IsLawful}
use study_project_metrics_an.Storage.Memory
use study_project_metrics_an.Storage.Memory.{MetricsStorage, Visit}
use study_project_metrics_an.Storage.Memory.Laws.{
  get_gauge-update_gauge, get_counter-update_counter,
}
use study_project_metrics_an.Storage.Memory.Laws
use study_project_metrics_an.Storage.Memory.Batch.{IsKnown, IsUnknown, batch_update-stops}
use study_project_metrics_an.Storage.Memory.Valid.{
  IsValid, update_gauge-IsValid, update_counter-IsValid, batch_update-IsValid,
}
use study_project_metrics_an.Storage.Memory.Snapshot.{IsVisit}
use study_project_metrics_an.Persist.{Disk, Faults, SaveError, final, snapshot, save_metrics}
use study_project_metrics_an.Persist.Save.{IsFresh, save_metrics-marshal}
use study_project_metrics_an.Persist.RoundTrip.{SameReads, load_metrics-save_metrics}

-- What the wrapped storage does not decide: how each save fares, counted from 0, and the orders in
-- which the loops visit the maps.
pub record Env : Type 0 where
  pub json : Json
  pub path : String
  pub faults : ℕ → Faults
  pub copying : Visit
  pub ranging : Visit

pub record SyncStorage : Type 0 where
  pub mem : MetricsStorage
  pub disk : Disk
  pub saves : ℕ

module _ (env : Env) where
  -- The result of the save of `s`; the caller drops the error.
  unfoldable pub attempt : SyncStorage → List Disk × Option SaveError
  attempt s =
      save_metrics env.json (env.faults s.saves) env.copying env.ranging env.path s.mem s.disk

  unfoldable pub save : SyncStorage → SyncStorage
  unfolding attempt
  save s = record s { disk = final s.disk (attempt s).0; saves = suc s.saves }

  unfoldable pub update_gauge : String → Float64 → SyncStorage → SyncStorage
  unfolding save
  update_gauge name value s = save (record s { mem = Memory.update_gauge name value s.mem })

  unfoldable pub update_counter : String → Int64 → SyncStorage → SyncStorage
  unfolding save
  update_counter name value s = save (record s { mem = Memory.update_counter name value s.mem })

  unfoldable pub batch_update : List Metrics → SyncStorage → SyncStorage × Option Error
  unfolding save
  batch_update metrics s =
      let (m, err) = Memory.batch_update metrics s.mem in
      let s' : SyncStorage = record s { mem = m } in
      elim err [ none ↦ (save s', none) | some e ↦ (s', some e) ]

  -- The methods that are not redefined are those of the embedded storage.
  unfoldable pub sync_storage : Storage SyncStorage
  sync_storage = record {
    update_gauge = update_gauge;
    update_counter = update_counter;
    batch_update = batch_update;
    get_gauge = λ name s. Memory.get_gauge name s.mem;
    get_counter = λ name s. Memory.get_counter name s.mem;
    get_all_metrics = λ s. Memory.get_all_metrics env.copying s.mem;
    ping = λ s. Memory.ping s.mem;
  }

  -- Saving changes no reading: the wrapped storage keeps the laws of the interface, however the
  -- saves fare.
  pub sync_storage-IsLawful : IsLawful sync_storage
  unfolding sync_storage update_gauge update_counter
  sync_storage-IsLawful =
      let mem = Laws.mem_storage-IsLawful env.copying in
      record {
        gauge_gauge = λ k j v s. unfold Memory.mem_storage in mem.gauge_gauge k j v s.mem;
        counter_gauge = λ k j v s. unfold Memory.mem_storage in mem.counter_gauge k j v s.mem;
        counter_counter = λ k j d s. unfold Memory.mem_storage in mem.counter_counter k j d s.mem;
        gauge_counter = λ k j d s. unfold Memory.mem_storage in mem.gauge_counter k j d s.mem;
      }
