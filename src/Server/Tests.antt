-- ===== src/Server/Tests.antt =====
-- A server over one gauge that is set up, handles a write, stops, and is set up again.
use study_project_metrics_an.Base.{
  ◌⊎◌, ℕ, ◌≡◌, refl, true, false, inr, none, some, [], ◌∷◌, arith, eq_iff, if◌then◌else◌, ◌==◌,
}
use study_project_metrics_an.Base.Assoc.{lookup, insert, remove}
use study_project_metrics_an.Fixtures.{listed, listed-IsVisit, toy_json, toy_json-IsJson}
use study_project_metrics_an.Storage.Memory
use study_project_metrics_an.Storage.Memory.{MetricsStorage, new_mem_storage}
use study_project_metrics_an.Persist.{Disk, Faults, save_metrics, snapshot, load_metrics}
use study_project_metrics_an.Persist.Save.{IsFresh}
use study_project_metrics_an.Persist.RoundTrip.{SameReads}
use study_project_metrics_an.Persist.Sync.{attempt, save}
use study_project_metrics_an.Persist.Sync.Durable.{gauge}
use study_project_metrics_an.Config.{ServerConfig, server_defaults}
use study_project_metrics_an.Server.{
  Libs, Server, plain, url, setup, restored, choose_store, in_memory,
}
use study_project_metrics_an.Server.Running.{
  Running, Loops, saved, saved_from, written, Reach, here, next, request, signal, final_copy,
  final_save,
}
use study_project_metrics_an.Http.{Request}
use study_project_metrics_an.Wire.{whole}
use study_project_metrics_an.Middleware
use study_project_metrics_an.Middleware.{chain}
use study_project_metrics_an.Middleware.Guard.{IsInside, IsHashed}
use study_project_metrics_an.Middleware.Toy.{server, collect}
use study_project_metrics_an.Server.Guarded.{guards, IsOpened, setup-guarded}
use study_project_metrics_an.Server.Restart.{
  Reads, IsOver, loops_of, request-late, setup-Reads, restored-IsValid,
}

-- The settings: a file that is saved every 300 seconds, a subnet and a key.
abbrev cfg : ServerConfig
cfg = record server_defaults {
  restore = true;
  trusted_subnet = "10.0.0.0/8";
  crypto_key = "key.pem";
  key = "k";
  audit_url = "http://audit";
}

-- A subnet is a number here, and so are a key, a pool and what is opened.
abbrev libs : Libs ℕ ℕ ℕ ℕ
libs = record {
  parse_flags = some cfg;
  parse_cidr = λ t. if t == "10.0.0.0/8" then some 10 else none;
  new_production = some 0;
  new_postgres_storage = λ dsn. none;
  json = toy_json;
  read_fails = false;
  new_file_observer = λ path. some 0;
  load_private_key = λ path. if path == "key.pem" then some 7 else none;
  listen = λ address. none;
}

abbrev on_five : Disk
on_five = ("metrics-db.json", 0 ∷ 5 ∷ []) ∷ []

abbrev server_on : MetricsStorage → Server ℕ ℕ ℕ
server_on m = record {
  config = cfg;
  subnet = some 10;
  store = plain m;
  warning = none;
  observers = url "http://audit" ∷ [];
  private_key = some 7;
  grpc = none;
}

abbrev five : MetricsStorage
five = record { gauges = ("a", 5) ∷ []; counters = [] }

set_up_five : setup libs on_five ≡ inr (server_on five)
unfolding setup choose_store in_memory restored load_metrics Memory.gauge_metric lookup insert
    new_mem_storage
set_up_five = refl

set_up_six :
    setup libs (("metrics-db.json", 0 ∷ 6 ∷ []) ∷ [])
    ≡ inr (server_on (record five { gauges = ("a", 6) ∷ [] }))
unfolding setup choose_store in_memory restored load_metrics Memory.gauge_metric lookup insert
    new_mem_storage
set_up_six = refl

abbrev plain_request : Request
plain_request = record {
  header = ("X-Real-IP", "10.0.0.1") ∷ ("HashSHA256", "signed") ∷ [];
  body = whole (1 ∷ 2 ∷ []);
  remote_addr = "10.0.0.1:80";
  url_params = [];
  now = 0;
}

-- The toy server with what the settings give.
abbrev guarded : Middleware.Config ℕ ℕ ℕ ℕ
guarded = guards server libs on_five (server_on five)

setup-guarded_example :
    ((cfg.trusted_subnet ≡ "")
      ⊎ ((net : ℕ) × (libs.parse_cidr cfg.trusted_subnet ≡ some net)
          × (((chain guarded collect plain_request []).0 ≡ [])
              ⊎ IsInside guarded collect net plain_request)))
    × ((cfg.key ≡ "")
        ⊎ ((chain guarded collect plain_request []).0 ≡ [])
        ⊎ IsHashed guarded collect plain_request [] (chain guarded collect plain_request []).0)
    × ((cfg.crypto_key ≡ "")
        ⊎ ((k : ℕ) × (libs.load_private_key cfg.crypto_key ≡ some k)
            × IsOpened guarded collect plain_request [] k))
setup-guarded_example =
    setup-guarded server libs on_five (server_on five) collect plain_request [] set_up_five

-- A save that succeeds.
abbrev healthy : Faults
healthy = record {
  temp_name = some "metrics-1.tmp";
  write_fails_after = none;
  close_fails = false;
  rename_fails = false;
}

fresh :
    (v : ℕ)
    → IsFresh (some "metrics-1.tmp") "metrics-db.json" (("metrics-db.json", 0 ∷ v ∷ []) ∷ [])
unfolding lookup
fresh v = (ground (arith, eq_iff "metrics-1.tmp" "metrics-db.json"), refl)

abbrev loops : Loops
loops = loops_of libs listed listed

-- The gauge becomes 6, and the server stops after the final snapshot.
abbrev six : MetricsStorage
six = record { gauges = ("a", 6) ∷ []; counters = [] }

abbrev stopped : Running
stopped = record {
  store = record { mem = six; disk = ("metrics-db.json", 0 ∷ 6 ∷ []) ∷ []; saves = 1 };
  phase = saved;
  due = 0;
  writing = none;
  periodic = none;
  final_error = some none;
  late = false;
  overwritten = false;
}

Reach-stopped : Reach loops cfg (restored libs on_five cfg).0 on_five stopped
unfolding restored load_metrics Memory.gauge_metric Memory.update_gauge written saved_from save
    attempt save_metrics snapshot Memory.get_all_metrics lookup insert remove new_mem_storage
Reach-stopped =
    next (next (next (next here (request (gauge "a" 6) refl)) (signal refl)) (final_copy refl refl))
      (final_save six healthy refl (fresh 5))

setup-Reads_example :
    ((server_on six).warning ≡ none)
    × ((m : MetricsStorage) × IsOver m (server_on six).store × Reads m six)
setup-Reads_example =
    setup-Reads libs listed listed toy_json-IsJson listed-IsVisit listed-IsVisit refl on_five cfg
      stopped (server_on six) refl refl refl refl Reach-stopped refl refl refl set_up_six

request-late_example :
    (t : Running) × Reach loops cfg (restored libs on_five cfg).0 on_five t
    × (t.store.mem ≡ written (gauge "a" 7) six)
    × (t.due ≡ 0)
    × SameReads toy_json "metrics-db.json" six t.store.disk
request-late_example =
    request-late loops cfg toy_json-IsJson listed-IsVisit listed-IsVisit stopped (gauge "a" 7)
      (restored-IsValid libs listed listed cfg on_five) Reach-stopped refl refl refl refl refl

-- The same with a periodic save that took its copy before the write.
abbrev behind_ticker : Running
behind_ticker = record stopped { periodic = some five }
