-- ===== src/Agent/Setup/Tests.antt =====
-- An agent that is set up by flags.
use study_project_metrics_an.Base.{
  true, suc, ℕ, String, ◌≡◌, refl, sym, ◌∙◌, ◌≤◌, ◌+◌, none, some, [], ◌∷◌, ◌⊎◌, inl, inr, ◌==◌,
  if◌then◌else◌, arith,
}
use study_project_metrics_an.Base.Assoc.{lookup}
use study_project_metrics_an.Model.{Metrics}
use study_project_metrics_an.Fixtures.{listed}
use study_project_metrics_an.Crypto.Keys.{KeyLibs, load_public_key}
use study_project_metrics_an.Config.{Flags, find_config_path, scan, match_names}
use study_project_metrics_an.Config.Agent.{
  AgentConfig, AgentLibs, agent_defaults, agent_config_from_json, with_agent_flags,
  parse_agent_json, parse_agent_flags,
}
use study_project_metrics_an.Agent.Main.{Agent, start, capacity, here}
use study_project_metrics_an.Agent.Main.Accounts.{total}
use study_project_metrics_an.Agent.Main.Shutdown.{Run, IsDone}
use study_project_metrics_an.Agent.Setup.{
  SetupError, http, Libs, Setup, assembled, setup, set_up, choose_key, choose_transport,
  channel_size, exit_status,
}
use study_project_metrics_an.Agent.{Net}
use study_project_metrics_an.Middleware.Toy.{full_random}
use study_project_metrics_an.Agent.Setup.Runs.{longest, exit_status_iff, setup-ends}

abbrev agent_libs : AgentLibs
agent_libs = record {
  load_json = λ path. none;
  seconds = λ t. none;
  merge = λ d s. some s;
  env = some;
}

abbrev key_libs : KeyLibs ℕ
key_libs = record {
  read_file = λ path. if path == "pub.pem" then some [] else none;
  decode = λ b. some (record { typ = "PUBLIC KEY"; bytes = b });
  parse_pkcs1 = λ b. none;
  parse_general = λ b. some (some 7);
}

abbrev libs : Libs ℕ String ℕ
libs = record {
  agent = agent_libs;
  keys = key_libs;
  new_client = λ address. if address == "" then inl 1 else inr address;
  outbound_ip = "10.0.0.7";
}

abbrev flags : String → Flags
flags path = record {
  texts = ("crypto-key", path) ∷ ("k", "secret") ∷ [];
  numbers = [];
  bools = [];
  rest = [];
}

abbrev config : AgentConfig
config = record agent_defaults { crypto_key = "pub.pem"; key = "secret" }

abbrev agent : Setup ℕ String
agent = assembled libs config (some 7) http

is_set_up : setup libs "" [] (flags "pub.pem") ≡ inr agent
unfolding setup set_up choose_key choose_transport load_public_key parse_agent_flags
    parse_agent_json agent_config_from_json with_agent_flags lookup find_config_path scan
    match_names
is_set_up = refl

encrypts : agent.sender.public_key ≡ some 7
encrypts = refl

-- A key file that is not there.
no_key : exit_status (setup libs "" [] (flags "other.pem")) ≡ 1
unfolding exit_status setup set_up choose_key choose_transport load_public_key parse_agent_flags
    parse_agent_json agent_config_from_json with_agent_flags lookup find_config_path scan
    match_names
no_key = refl

abbrev net : Net ℕ ℕ
net = record {
  bad_url = λ u. none;
  random = λ n. (suc n, full_random);
  client_do = λ p n. (n, inr 200);
  is_net_error = λ e. true;
}

inr_same : (a b : Setup ℕ String) → ◌≡◌ {A = SetupError ℕ ⊎ Setup ℕ String} (inr a) (inr b) → a ≡ b
inr_same a b e = cc

short :
    (s : Setup ℕ String)
    → setup libs "" [] (flags "pub.pem") ≡ inr s
    → (s.config.poll_interval ≤ longest) × (s.config.report_interval ≤ longest)
short s e = rw (← inr_same agent s (sym is_set_up ∙ e)) (omega arith)

exits_well : exit_status (setup libs "" [] (flags "pub.pem")) ≡ 0
exits_well =
    (exit_status_iff libs "" [] (flags "pub.pem") short).1
      (agent, is_set_up, (omega arith, omega arith, omega arith))

one : Metrics → ℕ
one m = 1

one_run_ends :
    (channel_size 5 ≡ capacity 5)
    × ((t : Agent) × Run listed 5 (start 5 agent.collector) t
        × IsDone t
        × (t.jobs ≡ [])
        × (total one t.handled + total one t.lost ≡ total one t.taken))
one_run_ends =
    setup-ends libs "" [] (flags "pub.pem") agent is_set_up refl
      (omega arith, omega arith, omega arith) listed (start 5 agent.collector) one here
