-- ===== src/Config/Agent/Tests.antt =====
-- An agent with a file, a flag and no environment.
use study_project_metrics_an.Base.{
  String, ◌≡◌, refl, none, some, List, [], ◌∷◌, ◌==◌, eqb, if◌then◌else◌, arith,
}
use study_project_metrics_an.Base.Assoc.{lookup}
use study_project_metrics_an.Config.{Flags, find_config_path, scan, match_names, behind}
use study_project_metrics_an.Config.Agent.{
  AgentConfig, AgentJson, AgentLibs, agent_defaults, agent_config_from_json, with_agent_flags,
  no_agent_json, parse_agent_json, parse_agent_flags,
}
use study_project_metrics_an.Config.Agent.Settings.{IsAgentLibs}

abbrev file : AgentJson
file = record no_agent_json { address = "metrics:80"; poll_interval = "3s" }

abbrev merged : AgentConfig → AgentConfig → AgentConfig
merged d s = record d {
  address = if d.address == "" then s.address else d.address;
  poll_interval = if eqb d.poll_interval 0 then s.poll_interval else d.poll_interval;
  report_interval = if eqb d.report_interval 0 then s.report_interval else d.report_interval;
}

abbrev libs : AgentLibs
libs = record {
  load_json = λ path. if path == "agent.json" then some file else none;
  seconds = λ t. if t == "3s" then some 3 else none;
  merge = λ d s. some (merged d s);
  env = some;
}

abbrev getenv : String → String
getenv name = ""

libs-IsAgentLibs : IsAgentLibs libs getenv (λ t. none)
libs-IsAgentLibs = record { merge_poll = λ d s r h. ground arith; env_poll = λ c r h. ground arith }

abbrev args : List String
args = "-c" ∷ "agent.json" ∷ "-l" ∷ "-1" ∷ []

-- The limit of -1.
abbrev flags : Flags
flags = record { texts = []; numbers = ("l", 18446744073709551615) ∷ []; bools = []; rest = [] }

abbrev result : AgentConfig
result = record agent_defaults { address = "metrics:80"; poll_interval = 3 }

parsed : parse_agent_flags libs "" args flags ≡ some result
unfolding parse_agent_flags parse_agent_json agent_config_from_json with_agent_flags lookup
    find_config_path scan match_names behind
parsed = refl

path : find_config_path "" args ≡ "agent.json"
unfolding find_config_path scan match_names behind
path = refl
