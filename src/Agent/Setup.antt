-- ===== src/Agent/Setup.antt =====
-- run() of cmd/agent/main.go in front of its goroutines: the settings, the sender with its key, the
-- transport and the channel of jobs; and what main makes of its result. With NewSender of internal/agent/sender.go,
-- and NewGRPCSender and Close of grpcsender.go.
pub mod Configured
pub mod Sealed
pub mod Runs
mod Tests
use study_project_metrics_an.Base.{
  ℕ, String, ◌*◌, ◌%◌, Bool, true, false, not, ◌&&◌, ◌||◌, Option, none, some, List, ◌⊎◌, inl, inr,
  ◌==◌, if◌then◌else◌,
}
use study_project_metrics_an.Base.Int64.{Int64, modulus, is_positive}
use study_project_metrics_an.Crypto.Keys.{KeyError, KeyLibs, load_public_key}
use study_project_metrics_an.Config.{Flags}
use study_project_metrics_an.Config.Agent.{AgentConfig, AgentLibs, parse_agent_flags}
use study_project_metrics_an.Agent.{Sender}
use study_project_metrics_an.Agent.Collector.{Collector, new_collector}
use study_project_metrics_an.Agent.Main.{server_url}

pub data SetupError (E : Type 0) : Type 0 where
  settings : SetupError E
  public_key : String → KeyError → SetupError E
  grpc_sender : E → SetupError E

-- A sender over gRPC; `conn` is the connection, of which the generated client is a view.
pub record GrpcSender (Conn : Type 0) : Type 0 where
  pub conn : Conn
  pub local_ip : String

pub data Transport (Conn : Type 0) : Type 0 where
  grpc : GrpcSender Conn → Transport Conn
  http : Transport Conn

-- `new_client` is grpc.NewClient, `outbound_ip` what outboundIP gives.
pub record Libs (PublicKey Conn E : Type 0) : Type 0 where
  pub agent : AgentLibs
  pub keys : KeyLibs PublicKey
  pub new_client : String → E ⊎ Conn
  pub outbound_ip : String

pub record Setup (PublicKey Conn : Type 0) : Type 0 where
  pub config : AgentConfig
  pub collector : Collector
  pub sender : Sender PublicKey
  pub transport : Transport Conn

abbrev pub new_sender :
    {PublicKey : Type 0} → String → String → String → Option PublicKey → Sender PublicKey
new_sender outbound_ip base_url key pub_key = record {
  base_url = base_url;
  key = key;
  public_key = pub_key;
  local_ip = outbound_ip;
}

abbrev pub and_then : {E A R : Type 0} → E ⊎ A → (A → E ⊎ R) → E ⊎ R
and_then (inl e) next = inl e
and_then (inr a) next = next a

module _ {PublicKey Conn E : Type 0} (libs : Libs PublicKey Conn E) where
  abbrev pub with_key : String → KeyError ⊎ PublicKey → SetupError E ⊎ Option PublicKey
  with_key path (inl e) = inl (public_key path e)
  with_key path (inr key) = inr (some key)

  unfoldable pub choose_key : String → SetupError E ⊎ Option PublicKey
  choose_key path = if path == "" then inr none else with_key path (load_public_key libs.keys path)

  -- NewGRPCSender
  abbrev pub new_grpc_sender : E ⊎ Conn → SetupError E ⊎ Transport Conn
  new_grpc_sender (inl e) = inl (grpc_sender e)
  new_grpc_sender (inr conn) = inr (grpc (record { conn = conn; local_ip = libs.outbound_ip }))

  unfoldable pub choose_transport : String → SetupError E ⊎ Transport Conn
  choose_transport address =
      if address == "" then inr http else new_grpc_sender (libs.new_client address)

  abbrev pub assembled : AgentConfig → Option PublicKey → Transport Conn → Setup PublicKey Conn
  assembled cfg key transport = record {
    config = cfg;
    collector = new_collector 100 (server_url cfg.address);
    sender = new_sender libs.outbound_ip (server_url cfg.address) cfg.key key;
    transport = transport;
  }

  unfoldable pub set_up : AgentConfig → SetupError E ⊎ Setup PublicKey Conn
  unfolding choose_key choose_transport
  set_up cfg =
      and_then (choose_key cfg.crypto_key)
        (λ key. and_then (choose_transport cfg.grpc_address) (λ t. inr (assembled cfg key t)))

  abbrev pub configured : Option AgentConfig → SetupError E ⊎ Setup PublicKey Conn
  configured none = inl settings
  configured (some cfg) = set_up cfg

  unfoldable pub setup : String → List String → Flags → SetupError E ⊎ Setup PublicKey Conn
  setup config args f = configured (parse_agent_flags libs.agent config args f)

-- time.Duration(n) * time.Second, in nanoseconds.
unfoldable pub duration : Int64 → Int64
duration n = (n * 1000000000) % modulus

-- cfg.RateLimit * 2
unfoldable pub channel_size : Int64 → Int64
channel_size n = (n * 2) % modulus

-- time.NewTicker panics unless its duration is positive.
unfoldable pub ticks : Int64 → Bool
unfolding duration
ticks n = is_positive (duration n)

abbrev pub has_channel : {Conn : Type 0} → Transport Conn → Int64 → Bool
has_channel (grpc sender) n = true
has_channel http n = is_positive (channel_size n)

-- Whether the goroutines come to their loops: the tickers are made, and so is the channel, whose size must not
-- be negative; it is not 0 either, as the rate limit is not.
unfoldable pub runs : {PublicKey Conn : Type 0} → Setup PublicKey Conn → Bool
unfolding ticks channel_size
runs s =
    ticks s.config.poll_interval
    && (ticks s.config.report_interval && has_channel s.transport s.config.rate_limit)

-- The status that the process exits with once the signal has come: os.Exit(1) of main after an error of
-- run(), 2 after a panic, and 0 after the end of run(). Where run() has an error and the pollers panic as
-- well, the status can also be 2.
unfoldable pub exit_status : {PublicKey Conn E : Type 0} → SetupError E ⊎ Setup PublicKey Conn → ℕ
unfolding runs
exit_status (inl e) = 1
exit_status (inr s) = if runs s then 0 else 2
