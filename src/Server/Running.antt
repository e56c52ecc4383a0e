-- ===== src/Server/Running.antt =====
-- The server from the start of ListenAndServe to the end of run(), where its storage is in memory.
use study_project_metrics_an.Base.{
  ℕ, suc, ◌≡◌, Bool, true, false, ◌||◌, ◌&&◌, Option, none, some, if◌then◌else◌,
}
use study_project_metrics_an.Wire.{Json}
use study_project_metrics_an.Storage.Memory
use study_project_metrics_an.Storage.Memory.{MetricsStorage, Visit}
use study_project_metrics_an.Persist.{Disk, Faults, SaveError}
use study_project_metrics_an.Persist.Save.{IsFresh}
use study_project_metrics_an.Persist.Sync.{Env, SyncStorage, attempt, save}
use study_project_metrics_an.Persist.Sync.Durable.{Write, gauge, counter, batch}
use study_project_metrics_an.Config.{ServerConfig}
use study_project_metrics_an.Server.{has_file, is_synced, is_periodic}

-- `stopping`: ListenAndServe has returned since Shutdown was called; `saving`: run() has its copy of the
-- storage and is writing it to the file; `saved`: the final snapshot is behind; `exited`: the process
-- has ended.
pub data Phase : Type 0 where
  serving stopping saved exited : Phase
  saving : MetricsStorage → Phase

-- `due` counts the handlers of a synchronous storage that have changed the memory and wait for the lock
-- that their saves take; `writing` is the copy that the one with the lock is writing to the file, and
-- `periodic` the one that the goroutine of the periodic save is writing. `final_error` is the result of the final snapshot, where
-- there was one, `late` says that a request was handled after its copy was taken, and `overwritten`
-- that another save has ended after it.
pub record Running : Type 0 where
  pub store : SyncStorage
  pub phase : Phase
  pub due : ℕ
  pub writing : Option MetricsStorage
  pub periodic : Option MetricsStorage
  pub final_error : Option (Option SaveError)
  pub late : Bool
  pub overwritten : Bool

abbrev pub start : MetricsStorage → Disk → Running
start mem disk = record {
  store = record { mem = mem; disk = disk; saves = 0 };
  phase = serving;
  due = 0;
  writing = none;
  periodic = none;
  final_error = none;
  late = false;
  overwritten = false;
}

-- What encoding/json and the loops over maps do.
pub record Loops : Type 0 where
  pub json : Json
  pub copying : Visit
  pub ranging : Visit

-- The surroundings of a save that fares as `faults` says.
abbrev pub env_of : Loops → ServerConfig → Faults → Env
env_of loops cfg faults = record {
  json = loops.json;
  path = cfg.file_storage_path;
  faults = λ n. faults;
  copying = loops.copying;
  ranging = loops.ranging;
}

-- The end of a save of this copy of the storage, which may have changed since.
unfoldable pub saved_from : Env → MetricsStorage → SyncStorage → SyncStorage
saved_from env copy s = record (save env (record s { mem = copy })) { mem = s.mem }

-- The storage in memory after a write, and whether the write is one that returns no error.
unfoldable pub written : Write → MetricsStorage → MetricsStorage
written (gauge name value) m = Memory.update_gauge name value m
written (counter name delta) m = Memory.update_counter name delta m
written (batch metrics) m = (Memory.batch_update metrics m).0

unfoldable pub succeeds : Write → MetricsStorage → Bool
succeeds (gauge name value) m = true
succeeds (counter name delta) m = true
succeeds (batch metrics) m = elim (Memory.batch_update metrics m).1 [ none ↦ true | some e ↦ false ]

abbrev pub is_open : Phase → Bool
is_open exited = false
is_open _ = true

abbrev pub is_copied : Phase → Bool
is_copied (saving copy) = true
is_copied saved = true
is_copied _ = false

abbrev pub is_saved : Phase → Bool
is_saved saved = true
is_saved _ = false

-- One step of a handler, of the goroutine of the periodic save, or of run() itself. A handler can
-- still be at work after ListenAndServe has returned, since only Shutdown waits for it, and so can the
-- periodic save, for which nothing waits; a tick may even come first in its `select` after the signal.
-- A save is two steps: the copy, under the lock of the storage, and the end of its work on the file,
-- which only the saves of handlers keep apart from one another by a lock. Its temporary file has a name that is not in use, as
-- os.CreateTemp promises, so that the rename is the only thing that others see of it.
pub data Step (loops : Loops) (cfg : ServerConfig) (s : Running) : Running → Type 0 where
  request :
      (w : Write)
      → is_open s.phase ≡ true
      → Step loops cfg s (record s {
        store = record s.store { mem = written w s.store.mem };
        due = if is_synced cfg && succeeds w s.store.mem then suc s.due else s.due;
        late = s.late || is_copied s.phase;
      })
  request_copy :
      (n : ℕ)
      → s.due ≡ suc n
      → is_open s.phase ≡ true
      → s.writing ≡ none
      → Step loops cfg s (record s { due = n; writing = some s.store.mem })
  request_saved :
      (copy : MetricsStorage) (faults : Faults)
      → s.writing ≡ some copy
      → is_open s.phase ≡ true
      → IsFresh faults.temp_name cfg.file_storage_path s.store.disk
      → Step loops cfg s (record s {
        store = saved_from (env_of loops cfg faults) copy s.store;
        writing = none;
        overwritten = s.overwritten || is_saved s.phase;
      })
  tick :
      is_periodic cfg ≡ true
      → is_open s.phase ≡ true
      → s.periodic ≡ none
      → Step loops cfg s (record s { periodic = some s.store.mem })
  tick_saved :
      (copy : MetricsStorage) (faults : Faults)
      → s.periodic ≡ some copy
      → is_open s.phase ≡ true
      → IsFresh faults.temp_name cfg.file_storage_path s.store.disk
      → Step loops cfg s (record s {
        store = saved_from (env_of loops cfg faults) copy s.store;
        periodic = none;
        overwritten = s.overwritten || is_saved s.phase;
      })
  fail : s.phase ≡ serving → Step loops cfg s (record s { phase = exited })
  signal : s.phase ≡ serving → Step loops cfg s (record s { phase = stopping })
  final_copy :
      has_file cfg ≡ true
      → s.phase ≡ stopping
      → Step loops cfg s (record s { phase = saving s.store.mem })
  final_save :
      (copy : MetricsStorage) (faults : Faults)
      → s.phase ≡ saving copy
      → IsFresh faults.temp_name cfg.file_storage_path s.store.disk
      → Step loops cfg s (record s {
        store = saved_from (env_of loops cfg faults) copy s.store;
        phase = saved;
        final_error = some (attempt (env_of loops cfg faults) (record s.store { mem = copy })).1;
      })
  no_save :
      has_file cfg ≡ false → s.phase ≡ stopping → Step loops cfg s (record s { phase = saved })
  exit : s.phase ≡ saved → Step loops cfg s (record s { phase = exited })

pub data Reach (loops : Loops) (cfg : ServerConfig) (mem : MetricsStorage) (disk : Disk)
    : Running → Type 0 where
  here : Reach loops cfg mem disk (start mem disk)
  next :
      {s t : Running} → Reach loops cfg mem disk s → Step loops cfg s t → Reach loops cfg mem disk t
