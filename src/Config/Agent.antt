-- ===== src/Config/Agent.antt =====
-- internal/config/agent.go: how the agent finds its settings. The libraries are parameters as for the
-- server.
pub mod Settings
mod Tests
use study_project_metrics_an.Base.{
  ℕ, String, Bool, true, false, Option, none, some, List, [], ◌∷◌, ◌==◌, ◌&&◌, if◌then◌else◌, ◌>>=◌,
}
use study_project_metrics_an.Base.Assoc.{Assoc, lookup}
use study_project_metrics_an.Base.Int64.{Int64, is_positive}
use study_project_metrics_an.Config.{Flags, flag, find_config_path}

pub record AgentConfig : Type 0 where
  pub address : String
  pub poll_interval : Int64
  pub report_interval : Int64
  pub key : String
  pub rate_limit : Int64
  pub crypto_key : String
  pub grpc_address : String

pub record AgentJson : Type 0 where
  pub address : String
  pub report_interval : String
  pub poll_interval : String
  pub crypto_key : String
  pub grpc_address : String

abbrev pub agent_defaults : AgentConfig
agent_defaults = record {
  address = "localhost:8080";
  poll_interval = 2;
  report_interval = 10;
  key = "";
  rate_limit = 5;
  crypto_key = "";
  grpc_address = "";
}

abbrev pub agent_typed : AgentJson → Int64 → Int64 → AgentConfig
agent_typed j poll report = record {
  address = j.address;
  poll_interval = poll;
  report_interval = report;
  key = "";
  rate_limit = 0;
  crypto_key = j.crypto_key;
  grpc_address = j.grpc_address;
}

-- An interval of the file: 0 where it has none, an error where it is no duration.
abbrev pub interval : (String → Option Int64) → String → Option Int64
interval seconds t = if t == "" then some 0 else seconds t

-- `seconds` is time.ParseDuration and the whole seconds of its result.
unfoldable pub agent_config_from_json : (String → Option Int64) → AgentJson → Option AgentConfig
agent_config_from_json seconds j = do
  poll ← interval seconds j.poll_interval
  report ← interval seconds j.report_interval
  some (agent_typed j poll report)

-- The variables of the flags after flag.Parse; the key has no default.
unfoldable pub with_agent_flags : Flags → AgentConfig → AgentConfig
with_agent_flags f d = record {
  address = flag (lookup "a" f.texts) d.address;
  poll_interval = flag (lookup "p" f.numbers) d.poll_interval;
  report_interval = flag (lookup "r" f.numbers) d.report_interval;
  key = flag (lookup "k" f.texts) "";
  rate_limit = flag (lookup "l" f.numbers) d.rate_limit;
  crypto_key = flag (lookup "crypto-key" f.texts) d.crypto_key;
  grpc_address = flag (lookup "grpc" f.texts) d.grpc_address;
}

-- mergo.Merge and env.Parse, which can fail, and the reading of a file.
pub record AgentLibs : Type 0 where
  pub load_json : String → Option AgentJson
  pub seconds : String → Option Int64
  pub merge : AgentConfig → AgentConfig → Option AgentConfig
  pub env : AgentConfig → Option AgentConfig

abbrev pub no_agent_json : AgentJson
no_agent_json = record {
  address = "";
  report_interval = "";
  poll_interval = "";
  crypto_key = "";
  grpc_address = "";
}

-- A limit that is not positive is replaced.
abbrev pub corrected : AgentConfig → AgentConfig
corrected cfg =
    if is_positive cfg.rate_limit
    then cfg
    else record cfg { rate_limit = agent_defaults.rate_limit }

-- Steps 2 to 5 with the parsed file.
unfoldable pub parse_agent_json : AgentLibs → Flags → AgentJson → Option AgentConfig
unfolding agent_config_from_json with_agent_flags
parse_agent_json libs f j = do
  from_json ← agent_config_from_json libs.seconds j
  merged ← libs.merge from_json agent_defaults
  cfg ← libs.env (with_agent_flags f merged)
  some (corrected cfg)

-- Step 1: the file that is named, or what no file gives.
abbrev pub read_json : AgentLibs → String → Option AgentJson
read_json libs path = if path == "" then some no_agent_json else libs.load_json path

-- `config` is CONFIG and `args` the arguments, of which `f` is what package flag reads.
unfoldable pub parse_agent_flags : AgentLibs → String → List String → Flags → Option AgentConfig
unfolding find_config_path parse_agent_json
parse_agent_flags libs config args f = do
  j ← read_json libs (find_config_path config args)
  parse_agent_json libs f j
