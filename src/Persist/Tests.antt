-- ===== src/Persist/Tests.antt =====
-- Saving and loading on a concrete disk.
use study_project_metrics_an.Base.{
  ℕ, String, ◌≡◌, refl, ◌<◌, false, none, some, [], ◌∷◌, arith, eq_iff, All,
}
use study_project_metrics_an.Base.Int64.{add64}
use study_project_metrics_an.Base.Assoc.{lookup, insert, remove}
use study_project_metrics_an.Wire.{Bytes}
use study_project_metrics_an.Fixtures.{listed, listed-IsVisit, toy_json, toy_json-IsJson}
use study_project_metrics_an.Storage.{IsLawful}
use study_project_metrics_an.Storage.Memory
use study_project_metrics_an.Storage.Memory.{MetricsStorage}
use study_project_metrics_an.Storage.Memory.Valid.{IsValid}
use study_project_metrics_an.Persist.{Disk, Faults, snapshot, final, save_metrics}
use study_project_metrics_an.Persist.Save.{IsFresh, IsWhole, save_metrics-IsWhole}
use study_project_metrics_an.Persist.RoundTrip.{SameReads, load_metrics-save_metrics}
use study_project_metrics_an.Persist.Sync.{
  Env, SyncStorage, attempt, sync_storage, sync_storage-IsLawful,
}
use study_project_metrics_an.Persist.Sync.Durable.{
  Write, gauge, counter, IsSound, write, applied, write-SameReads,
}

abbrev store : MetricsStorage
store = record { gauges = ("a", 7) ∷ []; counters = ("n", 3) ∷ [] }

in_range : (k : String) (d : ℕ) → lookup k store.counters ≡ some d → d < 18446744073709551616
unfolding lookup
in_range k d h = ground arith

store-IsValid : IsValid store
unfolding lookup
store-IsValid = record {
  gauges_distinct = (refl, tt);
  counters_distinct = (refl, tt);
  in_range = in_range;
}

abbrev disk : Disk
disk = ("db.json", 1 ∷ []) ∷ []

abbrev healthy : Faults
healthy = record {
  temp_name = some "metrics-1.tmp";
  write_fails_after = none;
  close_fails = false;
  rename_fails = false;
}

abbrev crowded : Faults
crowded = record healthy { write_fails_after = some 1 }

fresh : IsFresh (some "metrics-1.tmp") "db.json" disk
unfolding lookup
fresh = (ground (arith, eq_iff "metrics-1.tmp" "db.json"), refl)

abbrev content : Bytes
content = 0 ∷ 7 ∷ 1 ∷ 3 ∷ []

encoded : toy_json.encode_metrics (snapshot listed listed store) ≡ some content
unfolding snapshot Memory.get_all_metrics insert
encoded = refl

-- The file at every stage of a save that succeeds.
stages : save_metrics toy_json healthy listed listed "db.json" store disk ≡ (
  (("db.json", 1 ∷ []) ∷ ("metrics-1.tmp", []) ∷ [])
      ∷ (("db.json", 1 ∷ []) ∷ ("metrics-1.tmp", content) ∷ [])
      ∷ (("db.json", content) ∷ [])
      ∷ [],
  none,
)
unfolding save_metrics snapshot Memory.get_all_metrics insert remove
stages = refl

saved : (save_metrics toy_json healthy listed listed "db.json" store disk).1 ≡ none
unfolding save_metrics snapshot Memory.get_all_metrics insert remove
saved = refl

save_metrics-IsWhole_example :
    All
      (IsWhole "db.json" (lookup "db.json" disk) content)
      (save_metrics toy_json crowded listed listed "db.json" store disk).0
save_metrics-IsWhole_example =
    save_metrics-IsWhole toy_json crowded listed listed "db.json" store disk content encoded fresh

load_metrics-save_metrics_example :
    SameReads toy_json "db.json" store
      (final disk (save_metrics toy_json healthy listed listed "db.json" store disk).0)
load_metrics-save_metrics_example =
    load_metrics-save_metrics toy_json healthy listed listed "db.json" store disk toy_json-IsJson
      listed-IsVisit listed-IsVisit store-IsValid fresh saved

abbrev env : Env
env = record {
  json = toy_json;
  path = "db.json";
  faults = λ n. healthy;
  copying = listed;
  ranging = listed;
}

env-IsSound : IsSound env
env-IsSound = record { codec = toy_json-IsJson; copies = listed-IsVisit; ranges = listed-IsVisit }

abbrev running : SyncStorage
running = record { mem = store; disk = disk; saves = 0 }

sync_storage-IsLawful_example : IsLawful (sync_storage env)
sync_storage-IsLawful_example = sync_storage-IsLawful env

abbrev add_four : Write
add_four = counter "n" 4

no_error : (write env add_four running).1 ≡ none
unfolding write
no_error = refl

save_succeeds : (attempt env (record running { mem = applied env add_four running })).1 ≡ none
unfolding attempt applied Memory.update_counter add64 save_metrics snapshot Memory.get_all_metrics
    insert lookup remove
save_succeeds = refl

write-SameReads_example :
    SameReads toy_json "db.json"
      (write env add_four running).0.mem
      (write env add_four running).0.disk
write-SameReads_example =
    write-SameReads env env-IsSound add_four running store-IsValid fresh no_error save_succeeds

-- This json knows no gauge "NaN", as encoding/json encodes no NaN.
abbrev odd : Write
odd = gauge "NaN" 1

odd_no_error : (write env odd running).1 ≡ none
unfolding write
odd_no_error = refl

odd_does_not_encode :
    toy_json.encode_metrics (snapshot listed listed (applied env odd running)) ≡ none
unfolding applied Memory.update_gauge snapshot Memory.get_all_metrics insert
odd_does_not_encode = refl
