-- ===== src/Agent/Setup/Configured.antt =====
-- What a set-up of the agent has decided.
use study_project_metrics_an.Base.{
  String, ◌≡◌, ◌≢◌, refl, ◌<◌, ◌^◌, Option, none, some, List, ◌⊎◌, inl, inr, ◌==◌, arith, eq_iff,
  Bool-cases,
}
use study_project_metrics_an.Crypto.Keys.{KeyError, load_public_key}
use study_project_metrics_an.Config.{Flags}
use study_project_metrics_an.Config.Agent.{AgentConfig, parse_agent_flags}
use study_project_metrics_an.Config.Agent.Settings.{parse_agent_flags-positive}
use study_project_metrics_an.Agent.Collector.{new_collector}
use study_project_metrics_an.Agent.Main.{server_url}
use study_project_metrics_an.Agent.Setup.{
  Transport, grpc, http, Libs, Setup, and_then, with_key, choose_key, new_grpc_sender,
  choose_transport, assembled, set_up, configured, setup,
}

and_then-inr :
    {E A R : Type 0} (o : E ⊎ A) (next : A → E ⊎ R) (r : R)
    → and_then o next ≡ inr r
    → (a : A) × (o ≡ inr a) × (next a ≡ inr r)
and_then-inr (inl e) next r h = absurd cc
and_then-inr (inr a) next r h = (a, refl, h)

module _ {PublicKey Conn E : Type 0} (libs : Libs PublicKey Conn E) where
  abbrev pub HasKey : String → Option PublicKey → Type 0
  HasKey path key =
      (path ≡ "") × (key ≡ none)
      ⊎ (path ≢ "") × ((k : PublicKey) × (load_public_key libs.keys path ≡ inr k) × (key ≡ some k))

  abbrev pub HasTransport : String → Transport Conn → Type 0
  HasTransport address t =
      (address ≡ "") × (t ≡ http)
      ⊎ (address ≢ "")
        × ((conn : Conn) × (libs.new_client address ≡ inr conn)
            × (t ≡ grpc (record { conn = conn; local_ip = libs.outbound_ip })))

  with_key-inr :
      (path : String) (loaded : KeyError ⊎ PublicKey) (key : Option PublicKey)
      → with_key libs path loaded ≡ inr key
      → (k : PublicKey) × (loaded ≡ inr k) × (key ≡ some k)
  with_key-inr path (inl e) key h = absurd cc
  with_key-inr path (inr k) key h = (k, refl, ground arith)

  new_grpc_sender-inr :
      (made : E ⊎ Conn) (t : Transport Conn)
      → new_grpc_sender libs made ≡ inr t
      → (conn : Conn) × (made ≡ inr conn)
        × (t ≡ grpc (record { conn = conn; local_ip = libs.outbound_ip }))
  new_grpc_sender-inr (inl e) t h = absurd cc
  new_grpc_sender-inr (inr conn) t h = (conn, refl, ground arith)

  choose_key-HasKey :
      (path : String) (key : Option PublicKey) → choose_key libs path ≡ inr key → HasKey path key
  unfolding choose_key
  choose_key-HasKey path key h = elim (Bool-cases (path == "")) [
    | inl e ↦ inl ((eq_iff path "").0 e, ground arith)
    | inr ne ↦ inr (
      ground (arith, eq_iff path ""),
      with_key-inr path (load_public_key libs.keys path) key (rw ne at h),
    )
  ]

  choose_transport-HasTransport :
      (address : String) (t : Transport Conn)
      → choose_transport libs address ≡ inr t
      → HasTransport address t
  unfolding choose_transport
  choose_transport-HasTransport address t h = elim (Bool-cases (address == "")) [
    | inl e ↦ inl ((eq_iff address "").0 e, ground arith)
    | inr ne ↦ inr (
      ground (arith, eq_iff address ""),
      new_grpc_sender-inr (libs.new_client address) t (rw ne at h),
    )
  ]

  -- What a set-up has of its settings.
  pub record IsConfigured (s : Setup PublicKey Conn) : Type 0 where
    pub keyed : HasKey s.config.crypto_key s.sender.public_key
    pub signing : s.sender.key ≡ s.config.key
    pub addressed : s.sender.base_url ≡ server_url s.config.address
    pub collecting : s.collector.endpoint ≡ server_url s.config.address
    pub transported : HasTransport s.config.grpc_address s.transport
    pub working : (0 < s.config.rate_limit) × (s.config.rate_limit < 2 ^ 63)

  module _ (config : String) (args : List String) (f : Flags) where
    set_up-steps :
        (cfg : AgentConfig) (s : Setup PublicKey Conn)
        → set_up libs cfg ≡ inr s
        → (key : Option PublicKey) × (t : Transport Conn) × (choose_key libs cfg.crypto_key
            ≡ inr key)
          × (choose_transport libs cfg.grpc_address ≡ inr t)
          × (s ≡ assembled libs cfg key t)
    unfolding set_up
    set_up-steps cfg s h =
        let (key, e, h1) = and_then-inr (choose_key libs cfg.crypto_key) _ s h in
        let (t, e', h2) = and_then-inr (choose_transport libs cfg.grpc_address) _ s h1 in
        (key, t, e, e', ground arith)

    configured-steps :
        (o : Option AgentConfig) (s : Setup PublicKey Conn)
        → configured libs o ≡ inr s
        → (cfg : AgentConfig) × (o ≡ some cfg) × (set_up libs cfg ≡ inr s)
    configured-steps none s h = absurd cc
    configured-steps (some cfg) s h = (cfg, refl, h)

    -- An agent that is set up follows its settings: its HTTP sender has the public key of the file
    -- that they name, and none only where they name none, their key for signatures and their address;
    -- it reports over gRPC, without that sender, exactly where they have an address for it; and its
    -- number of workers is positive.
    pub setup-IsConfigured :
        (s : Setup PublicKey Conn) → setup libs config args f ≡ inr s → IsConfigured s
    unfolding setup new_collector
    setup-IsConfigured s h =
        let (cfg, parsed, h1) = configured-steps (parse_agent_flags libs.agent config args f) s h in
        let (key, t, e, e', same) = set_up-steps cfg s h1 in
        rw same (record {
          keyed = choose_key-HasKey cfg.crypto_key key e;
          signing = refl;
          addressed = refl;
          collecting = refl;
          transported = choose_transport-HasTransport cfg.grpc_address t e';
          working = parse_agent_flags-positive libs.agent config args f cfg parsed;
        })
