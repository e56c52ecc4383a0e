-- ===== src/Server/Choice.antt =====
-- What a set-up without an error has decided.
use study_project_metrics_an.Base.{
  String, ◌≡◌, ◌≢◌, refl, Option, none, some, ◌++◌, ◌⊎◌, inl, inr, ◌==◌, if◌then◌else◌, arith,
  eq_iff, Bool-cases,
}
use study_project_metrics_an.Persist.{Disk, LoadError}
use study_project_metrics_an.Config.{ServerConfig}
use study_project_metrics_an.Server.{
  SetupError, settings, trusted_subnet, logger, database, audit_file, private_key, grpc_listen,
  Libs, Store, postgres, synced, plain, Server, is_synced, optional, or_fail, file_observer,
  url_observer, restored, in_memory, choose_store, setup, wrapped, connected, set_up, set_up_routes,
  set_up_store, set_up_config,
}

-- What has been computed, and what becomes of it.
From : {A R : Type 0} → Option A → (A → SetupError ⊎ R) → R → Type 0
From {A} o next r = (a : A) × (o ≡ some a) × (next a ≡ inr r)

or_fail-inr :
    {A R : Type 0} (e : SetupError) (o : Option A) (next : A → SetupError ⊎ R) (r : R)
    → or_fail e o next ≡ inr r
    → From o next r
unfolding From
or_fail-inr e none next r h = absurd cc
or_fail-inr e (some a) next r h = (a, refl, h)

wrapped-some :
    {A : Type 0} (o : Option A) (r : Option A)
    → wrapped o ≡ some r
    → (a : A) × (o ≡ some a) × (r ≡ some a)
wrapped-some none r h = absurd cc
wrapped-some (some a) r h = (a, refl, ground arith)

-- A setting that is empty, or one that was used.
abbrev pub IsUsed : {A : Type 0} → String → (String → Option A) → Option A → Type 0
IsUsed {A} setting make r =
    (setting ≡ "") × (r ≡ none) ⊎ ((a : A) × (make setting ≡ some a) × (r ≡ some a))

optional-IsUsed :
    {A : Type 0} (setting : String) (make : String → Option A) (r : Option A)
    → optional setting make ≡ some r
    → IsUsed setting make r
optional-IsUsed setting make r h = elim (Bool-cases (setting == "")) [
  | inl e ↦ inl ((eq_iff setting "").0 e, ground arith)
  | inr ne ↦ inr (wrapped-some (make setting) r (rw ne at h))
]

module _ {Subnet PrivateKey Pool Handle : Type 0} (libs : Libs Subnet PrivateKey Pool Handle)
    (disk : Disk) where
  pub record IsSetUp (s : Server Subnet PrivateKey Pool) : Type 0 where
    pub configured : libs.parse_flags ≡ some s.config
    pub parsed : optional s.config.trusted_subnet libs.parse_cidr ≡ some s.subnet
    pub chosen : choose_store libs disk s.config ≡ some (s.store, s.warning)
    pub loaded : optional s.config.crypto_key libs.load_private_key ≡ some s.private_key
    pub observed :
        s.observers ≡ file_observer s.config.audit_file ++ url_observer s.config.audit_url

  abbrev pub IsChosen : Server Subnet PrivateKey Pool → Type 0
  IsChosen s =
      (s.config.database_dsn ≡ "")
        × (s.store ≡ (
            if is_synced s.config
            then synced (restored libs disk s.config).0
            else plain (restored libs disk s.config).0))
        × (s.warning ≡ (restored libs disk s.config).1)
      ⊎ (s.config.database_dsn ≢ "")
        × ((pool : Pool) × (libs.new_postgres_storage s.config.database_dsn ≡ some pool)
            × (s.store ≡ postgres pool))

  connected-some :
      (o : Option Pool) (store : Store Pool) (warning : Option LoadError)
      → connected libs disk o ≡ some (store, warning)
      → (pool : Pool) × (o ≡ some pool) × (store ≡ postgres pool)
  connected-some none store warning h = absurd cc
  connected-some (some pool) store warning h = (pool, refl, ground arith)

  module _ (s : Server Subnet PrivateKey Pool) where
    set_up-IsSetUp :
        (cfg : ServerConfig) (subnet : Option Subnet) (chosen : Store Pool × Option LoadError)
        (key : Option PrivateKey)
        → libs.parse_flags ≡ some cfg
        → optional cfg.trusted_subnet libs.parse_cidr ≡ some subnet
        → choose_store libs disk cfg ≡ some chosen
        → optional cfg.crypto_key libs.load_private_key ≡ some key
        → From (optional cfg.grpc_address libs.listen) (set_up libs disk cfg subnet chosen key) s
        → IsSetUp s
    unfolding From
    set_up-IsSetUp cfg subnet (store, warning) key e0 e1 e2 e3 (listener, e, h) = record {
      configured = ground arith;
      parsed = ground arith;
      chosen = ground arith;
      loaded = ground arith;
      observed = ground arith;
    }

    set_up_routes-IsSetUp :
        (cfg : ServerConfig) (subnet : Option Subnet) (chosen : Store Pool × Option LoadError)
        → libs.parse_flags ≡ some cfg
        → optional cfg.trusted_subnet libs.parse_cidr ≡ some subnet
        → choose_store libs disk cfg ≡ some chosen
        → set_up_routes libs disk cfg subnet chosen ≡ inr s
        → IsSetUp s
    unfolding From
    set_up_routes-IsSetUp cfg subnet chosen e0 e1 e2 h =
        let (key, e3, h') =
          or_fail-inr private_key (optional cfg.crypto_key libs.load_private_key)
            (λ key.
              or_fail grpc_listen (optional cfg.grpc_address libs.listen)
                (set_up libs disk cfg subnet chosen key))
            s h in
        set_up-IsSetUp cfg subnet chosen key e0 e1 e2 e3 (
          or_fail-inr grpc_listen (optional cfg.grpc_address libs.listen)
            (set_up libs disk cfg subnet chosen key) s h')

    set_up_store-IsSetUp :
        (cfg : ServerConfig) (subnet : Option Subnet)
        → libs.parse_flags ≡ some cfg
        → optional cfg.trusted_subnet libs.parse_cidr ≡ some subnet
        → From libs.new_production (set_up_store libs disk cfg subnet) s
        → IsSetUp s
    unfolding From
    set_up_store-IsSetUp cfg subnet e0 e1 (log, e, h) =
        let (chosen, e2, h1) =
          or_fail-inr database (choose_store libs disk cfg)
            (λ chosen.
              or_fail audit_file (optional cfg.audit_file libs.new_file_observer)
                (λ _. set_up_routes libs disk cfg subnet chosen))
            s h in
        let (observer, e', h2) =
          or_fail-inr audit_file (optional cfg.audit_file libs.new_file_observer)
            (λ _. set_up_routes libs disk cfg subnet chosen) s h1 in
        set_up_routes-IsSetUp cfg subnet chosen e0 e1 e2 h2

    pub setup-IsSetUp : setup libs disk ≡ inr s → IsSetUp s
    unfolding From setup
    setup-IsSetUp h =
        let (cfg, e0, h0) = or_fail-inr settings libs.parse_flags (set_up_config libs disk) s h in
        let (subnet, e1, h1) =
          or_fail-inr trusted_subnet (optional cfg.trusted_subnet libs.parse_cidr)
            (λ subnet. or_fail logger libs.new_production (set_up_store libs disk cfg subnet)) s
            h0 in
        set_up_store-IsSetUp cfg subnet e0 e1
          (or_fail-inr logger libs.new_production (set_up_store libs disk cfg subnet) s h1)

    -- A server that is set up without an error has the subnet and the private key of its settings,
    -- unless these are empty.
    pub setup-IsUsed :
        setup libs disk ≡ inr s
        → IsUsed s.config.trusted_subnet libs.parse_cidr s.subnet
          × IsUsed s.config.crypto_key libs.load_private_key s.private_key
    setup-IsUsed h =
        let i = setup-IsSetUp h in
        (
          optional-IsUsed s.config.trusted_subnet libs.parse_cidr s.subnet i.parsed,
          optional-IsUsed s.config.crypto_key libs.load_private_key s.private_key i.loaded,
        )

    -- The storage that a server without an error has: the database if a DSN is set; else memory with
    -- what the restore gave, saved on every write if there is a file and the interval is 0.
    pub setup-IsChosen : setup libs disk ≡ inr s → IsChosen s
    unfolding choose_store in_memory
    setup-IsChosen h =
        let i = setup-IsSetUp h in
        elim (Bool-cases (s.config.database_dsn == "")) [
          | inl e ↦
              let c = rw e at i.chosen in
              inl ((eq_iff s.config.database_dsn "").0 e, ground arith, ground arith)
          | inr ne ↦ inr (
            ground (arith, eq_iff s.config.database_dsn ""),
            connected-some (libs.new_postgres_storage s.config.database_dsn) s.store s.warning
                (rw ne at i.chosen),
          )
        ]
