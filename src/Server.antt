-- ===== src/Server.antt =====
-- run() of cmd/server/main.go: how the server is put together from its settings. The middlewares that
-- it chains are in Middleware, its settings in Config.
pub mod Running
pub mod Choice
pub mod Guarded
pub mod Stored
pub mod Restart
mod Tests
use study_project_metrics_an.Base.{
  ℕ, String, Bool, true, false, not, ◌&&◌, Option, none, some, List, [], ◌∷◌, ◌++◌, ◌⊎◌, inl, inr,
  ◌==◌, eqb, ltb, if◌then◌else◌, ◌^◌,
}
use study_project_metrics_an.Base.Int64.{Int64, is_positive}
use study_project_metrics_an.Wire.{Json}
use study_project_metrics_an.Storage.Memory.{MetricsStorage, new_mem_storage}
use study_project_metrics_an.Persist.{Disk, LoadError, load_metrics}
use study_project_metrics_an.Config.{ServerConfig}

pub data SetupError : Type 0 where
  settings trusted_subnet logger database audit_file private_key grpc_listen : SetupError

-- What the set-up calls, each with none for an error: config.ParseFlags, net.ParseCIDR,
-- zap.NewProduction, storage.NewPostgresStorage, audit.NewFileObserver, crypto.LoadPrivateKey and
-- net.Listen; what these open is of one type here. `read_fails` says that the snapshot file is there and cannot be read.
pub record Libs (Subnet PrivateKey Pool Handle : Type 0) : Type 0 where
  pub parse_flags : Option ServerConfig
  pub parse_cidr : String → Option Subnet
  pub new_production : Option Handle
  pub new_postgres_storage : String → Option Pool
  pub json : Json
  pub read_fails : Bool
  pub new_file_observer : String → Option Handle
  pub load_private_key : String → Option PrivateKey
  pub listen : String → Option Handle

-- The storage that the handlers and the gRPC service get.
pub data Store (Pool : Type 0) : Type 0 where
  postgres : Pool → Store Pool
  synced : MetricsStorage → Store Pool
  plain : MetricsStorage → Store Pool

pub data Observer : Type 0 where
  file : String → Observer
  url : String → Observer

-- What is set up when the server starts to listen. `warning` is the error of a restore, which is
-- only logged; there is an audit subject if there is an observer.
pub record Server (Subnet PrivateKey Pool : Type 0) : Type 0 where
  pub config : ServerConfig
  pub subnet : Option Subnet
  pub store : Store Pool
  pub warning : Option LoadError
  pub observers : List Observer
  pub private_key : Option PrivateKey
  pub grpc : Option String

abbrev pub has_file : ServerConfig → Bool
has_file cfg = not (cfg.file_storage_path == "")

abbrev pub is_synced : ServerConfig → Bool
is_synced cfg = has_file cfg && eqb cfg.store_interval_sec 0

-- Whether the goroutine of the periodic save is started, where the storage is not the database.
abbrev pub is_periodic : ServerConfig → Bool
is_periodic cfg = has_file cfg && is_positive cfg.store_interval_sec

-- An optional part: none where its setting is empty, an error where it cannot be made.
abbrev pub wrapped : {A : Type 0} → Option A → Option (Option A)
wrapped none = none
wrapped (some a) = some (some a)

abbrev pub optional : {A : Type 0} → String → (String → Option A) → Option (Option A)
optional setting make = if setting == "" then some none else wrapped (make setting)

abbrev pub or_fail : {A R : Type 0} → SetupError → Option A → (A → SetupError ⊎ R) → SetupError ⊎ R
or_fail e none next = inl e
or_fail e (some a) next = next a

abbrev pub file_observer : String → List Observer
file_observer path = if path == "" then [] else file path ∷ []

abbrev pub url_observer : String → List Observer
url_observer address = if address == "" then [] else url address ∷ []

abbrev pub opened : {A : Type 0} → String → Option A → Option String
opened setting none = none
opened setting (some a) = some setting

module _ {Subnet PrivateKey Pool Handle : Type 0} (libs : Libs Subnet PrivateKey Pool Handle)
    (disk : Disk) where
  -- The storage in memory after the restore, and the error of the restore.
  unfoldable pub restored : ServerConfig → MetricsStorage × Option LoadError
  restored cfg =
      if cfg.restore && has_file cfg
      then load_metrics libs.json libs.read_fails cfg.file_storage_path disk new_mem_storage
      else (new_mem_storage, none)

  unfoldable pub in_memory : ServerConfig → Store Pool × Option LoadError
  unfolding restored
  in_memory cfg =
      let (mem, warning) = restored cfg in
      (if is_synced cfg then synced mem else plain mem, warning)

  abbrev pub connected : Option Pool → Option (Store Pool × Option LoadError)
  connected none = none
  connected (some pool) = some (postgres pool, none)

  unfoldable pub choose_store : ServerConfig → Option (Store Pool × Option LoadError)
  unfolding in_memory
  choose_store cfg =
      if cfg.database_dsn == ""
      then some (in_memory cfg)
      else connected (libs.new_postgres_storage cfg.database_dsn)

  -- The set-up in the order of run(), up to the start of the HTTP server, one part after the other.
  abbrev pub set_up :
      ServerConfig
      → Option Subnet
      → Store Pool × Option LoadError
      → Option PrivateKey
      → Option Handle
      → SetupError ⊎ Server Subnet PrivateKey Pool
  set_up cfg subnet (store, warning) key listener = inr (record {
    config = cfg;
    subnet = subnet;
    store = store;
    warning = warning;
    observers = file_observer cfg.audit_file ++ url_observer cfg.audit_url;
    private_key = key;
    grpc = opened cfg.grpc_address listener;
  })

  abbrev pub set_up_routes :
      ServerConfig
      → Option Subnet
      → Store Pool × Option LoadError
      → SetupError ⊎ Server Subnet PrivateKey Pool
  set_up_routes cfg subnet chosen =
      or_fail private_key (optional cfg.crypto_key libs.load_private_key) (λ key.
        or_fail grpc_listen (optional cfg.grpc_address libs.listen) (set_up cfg subnet chosen key))

  abbrev pub set_up_store :
      ServerConfig → Option Subnet → Handle → SetupError ⊎ Server Subnet PrivateKey Pool
  set_up_store cfg subnet log = or_fail database (choose_store cfg) (λ chosen.
      or_fail audit_file (optional cfg.audit_file libs.new_file_observer)
        (λ _. set_up_routes cfg subnet chosen))

  abbrev pub set_up_config : ServerConfig → SetupError ⊎ Server Subnet PrivateKey Pool
  set_up_config cfg =
      or_fail trusted_subnet (optional cfg.trusted_subnet libs.parse_cidr)
        (λ subnet. or_fail logger libs.new_production (set_up_store cfg subnet))

  unfoldable pub setup : SetupError ⊎ Server Subnet PrivateKey Pool
  unfolding choose_store
  setup = or_fail settings libs.parse_flags set_up_config
