-- ===== src/Server/Restart.antt =====
-- A server that is stopped and started again.
use study_project_metrics_an.Base.{
  String, ◌≡◌, refl, ◌∙◌, Bool, true, false, none, some, List, [], ◌∷◌, arith, Bool-cases, ◌⊎◌, inl,
  inr, ◌==◌, if◌then◌else◌,
}
use study_project_metrics_an.Model.{Metrics, type_gauge, type_counter}
use study_project_metrics_an.Wire.{Json, IsJson}
use study_project_metrics_an.Storage.Memory.{
  MetricsStorage, Visit, new_mem_storage, get_gauge, get_counter,
}
use study_project_metrics_an.Storage.Memory.Snapshot.{IsVisit}
use study_project_metrics_an.Storage.Memory.Valid.{
  IsValid, new_mem_storage-IsValid, gauge_metric-IsValid, counter_metric-IsValid,
}
use study_project_metrics_an.Persist.{Disk, load_metric, load_all, load_metrics}
use study_project_metrics_an.Persist.RoundTrip.{SameReads}
use study_project_metrics_an.Persist.Sync.Durable.{Write}
use study_project_metrics_an.Config.{ServerConfig}
use study_project_metrics_an.Server.{
  Libs, Server, Store, synced, plain, restored, has_file, is_synced, setup,
}
use study_project_metrics_an.Server.Choice.{setup-IsSetUp, setup-IsChosen}
use study_project_metrics_an.Server.Running.{saved, Running, Loops, written, request, Reach, next}
use study_project_metrics_an.Server.Stored.{Reach-IsStored}

load_metric-IsValid : (x : Metrics) (m : MetricsStorage) → IsValid m → IsValid (load_metric x m)
unfolding load_metric
load_metric-IsValid x m v = elim (Bool-cases (x.mtype == type_gauge)) [
  | inl g ↦ rw g (gauge_metric-IsValid x.id x.value m v)
  | inr ng ↦ elim (Bool-cases (x.mtype == type_counter)) [
    | inl c ↦ rw (ng, c) (counter_metric-IsValid x.id x.delta m v)
    | inr nc ↦ rw (ng, nc) v
  ]
]

load_all-IsValid : (xs : List Metrics) (m : MetricsStorage) → IsValid m → IsValid (load_all xs m)
unfolding load_all
load_all-IsValid [] m v = v
load_all-IsValid (x ∷ xs) m v = load_all-IsValid xs (load_metric x m) (load_metric-IsValid x m v)

-- However a restore fares, the storage that it leaves is valid.
pub load_metrics-IsValid :
    (json : Json) (read_fails : Bool) (path : String) (disk : Disk)
    → IsValid (load_metrics json read_fails path disk new_mem_storage).0
unfolding load_metrics
load_metrics-IsValid json read_fails path disk =
    grind (arith, new_mem_storage-IsValid, load_all-IsValid)

module _ (loops : Loops) (cfg : ServerConfig) where
  module _ (codec : IsJson loops.json) (copies : IsVisit loops.copying)
      (ranges : IsVisit loops.ranging) where
    -- A request that is still at work when the final snapshot has been written is handled, but not in
    -- the file: run() does not wait for Shutdown. Where the storage is not saved on every write, its
    -- write changes the memory, no save becomes due, and the file still reads as the memory did
    -- before, if no other save has ended since the final one.
    pub request-late :
        {mem : MetricsStorage} {disk : Disk} (s : Running) (w : Write)
        → IsValid mem
        → Reach loops cfg mem disk s
        → s.phase ≡ saved
        → s.final_error ≡ some none
        → s.late ≡ false
        → s.overwritten ≡ false
        → is_synced cfg ≡ false
        → (t : Running) × Reach loops cfg mem disk t
          × (t.store.mem ≡ written w s.store.mem)
          × (t.due ≡ s.due)
          × SameReads loops.json cfg.file_storage_path s.store.mem t.store.disk
    request-late s w v r p e l o unsynced = (
      _,
      next r (request w (rw p refl)),
      refl,
      rw unsynced refl,
      (Reach-IsStored loops cfg codec copies ranges v r).stored e l o,
    )

abbrev pub Reads : MetricsStorage → MetricsStorage → Type 0
Reads m store =
    (k : String) → (get_gauge k m ≡ get_gauge k store) × (get_counter k m ≡ get_counter k store)

-- The storage in memory of a server, where it is not the database.
abbrev pub IsOver : {Pool : Type 0} → MetricsStorage → Store Pool → Type 0
IsOver m store = (store ≡ synced m) ⊎ (store ≡ plain m)

module _ {Subnet PrivateKey Pool Handle : Type 0} (libs : Libs Subnet PrivateKey Pool Handle)
    (copying ranging : Visit) where
  abbrev pub loops_of : Loops
  loops_of = record { json = libs.json; copying = copying; ranging = ranging }

  restored-Reads :
      (cfg : ServerConfig) (disk : Disk) (store : MetricsStorage)
      → cfg.restore ≡ true
      → has_file cfg ≡ true
      → libs.read_fails ≡ false
      → SameReads libs.json cfg.file_storage_path store disk
      → ((restored libs disk cfg).1 ≡ none) × Reads (restored libs disk cfg).0 store
  unfolding restored
  restored-Reads cfg disk store r f readable same = rw (r, f, readable) same

  pub restored-IsValid : (cfg : ServerConfig) (disk : Disk) → IsValid (restored libs disk cfg).0
  unfolding restored
  restored-IsValid cfg disk = grind (
    arith,
    new_mem_storage-IsValid,
    load_metrics-IsValid libs.json libs.read_fails cfg.file_storage_path disk,
  )

  chosen-IsOver :
      (b : Bool) (m : MetricsStorage) (store : Store Pool)
      → store ≡ (if b then synced m else plain m)
      → IsOver m store
  chosen-IsOver true m store e = inl e
  chosen-IsOver false m store e = inr e

  module _ (codec : IsJson libs.json) (copies : IsVisit copying) (ranges : IsVisit ranging)
      (readable : libs.read_fails ≡ false) where
    -- A server with a file and no database that is stopped and started again with the same settings
    -- loses nothing, if it is told to restore, its final snapshot was written without an error, no
    -- request was handled after the copy for it was taken, no other save ended after it, the file can
    -- be read, and json and the loops are sound: whatever was written before, the new server, if it is
    -- set up, has no warning and a memory in which every gauge and every counter reads as at the end of
    -- the old one.
    pub setup-Reads :
        (disk : Disk) (cfg : ServerConfig) (s : Running) (server : Server Subnet PrivateKey Pool)
        → cfg.restore ≡ true
        → cfg.database_dsn ≡ ""
        → has_file cfg ≡ true
        → libs.parse_flags ≡ some cfg
        → Reach loops_of cfg (restored libs disk cfg).0 disk s
        → s.final_error ≡ some none
        → s.late ≡ false
        → s.overwritten ≡ false
        → setup libs s.store.disk ≡ inr server
        → (server.warning ≡ none)
          × ((m : MetricsStorage) × IsOver m server.store × Reads m s.store.mem)
    setup-Reads disk cfg s server r d f e reach ended timely last up =
        let i = Reach-IsStored loops_of cfg codec copies ranges (restored-IsValid cfg disk) reach in
        let (no_warning, same) =
          restored-Reads cfg s.store.disk s.store.mem r f readable (i.stored ended timely last) in
        let configured : server.config ≡ cfg =
          ground (arith, (setup-IsSetUp libs s.store.disk server up).configured) in
        elim (setup-IsChosen libs s.store.disk server up) [
          | inl (no_dsn, chosen, warned) ↦ (
            warned ∙ rw configured no_warning,
            (
              (restored libs s.store.disk cfg).0,
              chosen-IsOver (is_synced cfg) (restored libs s.store.disk cfg).0 server.store
                  (rw configured at chosen),
              same,
            ),
          )
          | inr (dsn, _) ↦ absurd (dsn (rw configured d))
        ]
