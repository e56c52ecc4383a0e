-- ===== src/Config/Agent/Settings.antt =====
-- Which source of a setting of the agent wins, and what its limit is.
use study_project_metrics_an.Base.{
  String, ◌≡◌, ◌<◌, ◌^◌, refl, sym, true, Bool-cases, inl, inr, Option, some, List, ◌==◌, eqb,
  if◌then◌else◌, bind-some, arith,
}
use study_project_metrics_an.Base.Int64.{Int64, is_positive}
use study_project_metrics_an.Base.Assoc.{lookup}
use study_project_metrics_an.Config.{Flags, flag, find_config_path}
use study_project_metrics_an.Config.Agent.{
  AgentConfig, AgentJson, AgentLibs, agent_defaults, interval, agent_config_from_json,
  with_agent_flags, corrected, read_json, parse_agent_json, parse_agent_flags,
}

-- Documented behaviour at the polling interval: mergo fills a zero, and env sets what has a variable
-- that is not empty, or fails. `getenv` gives "" for a variable that is not set, and `parse_int` reads a number.
pub record IsAgentLibs (libs : AgentLibs) (getenv : String → String)
    (parse_int : String → Option Int64) : Type 0 where
  pub merge_poll :
      (d s r : AgentConfig)
      → libs.merge d s ≡ some r
      → r.poll_interval ≡ (if eqb d.poll_interval 0 then s.poll_interval else d.poll_interval)
  pub env_poll :
      (c r : AgentConfig)
      → libs.env c ≡ some r
      → (if getenv "POLL_INTERVAL" == ""
          then some c.poll_interval
          else parse_int (getenv "POLL_INTERVAL"))
        ≡ some r.poll_interval

corrected-positive : (c : AgentConfig) → is_positive (corrected c).rate_limit ≡ true
corrected-positive c = elim (Bool-cases (is_positive c.rate_limit)) [
  | inl p ↦ rw p p
  | inr n ↦ rw n refl
]

-- The steps of parse_agent_json that has a result.
parse_agent_json-steps :
    (libs : AgentLibs) (f : Flags) (j : AgentJson) (cfg : AgentConfig)
    → parse_agent_json libs f j ≡ some cfg
    → (from_json : AgentConfig) × (merged : AgentConfig) × (last : AgentConfig)
      × (agent_config_from_json libs.seconds j ≡ some from_json)
      × (libs.merge from_json agent_defaults ≡ some merged)
      × (libs.env (with_agent_flags f merged) ≡ some last)
      × (cfg ≡ corrected last)
unfolding parse_agent_json
parse_agent_json-steps libs f j cfg h =
    let (from_json, e, h1) = bind-some (agent_config_from_json libs.seconds j) _ h in
    let (merged, e1, h2) = bind-some (libs.merge from_json agent_defaults) _ h1 in
    let (last, e2, h3) = bind-some (libs.env (with_agent_flags f merged)) _ h2 in
    (from_json, merged, last, e, e1, e2, ground arith)

corrected-poll_interval : (c : AgentConfig) → (corrected c).poll_interval ≡ c.poll_interval
corrected-poll_interval c = elim (Bool-cases (is_positive c.rate_limit)) [
  | inl p ↦ rw p refl
  | inr n ↦ rw n refl
]

agent_config_from_json-poll :
    (seconds : String → Option Int64) (j : AgentJson) (c : AgentConfig)
    → agent_config_from_json seconds j ≡ some c
    → interval seconds j.poll_interval ≡ some c.poll_interval
unfolding agent_config_from_json
agent_config_from_json-poll seconds j c h =
    let (poll, e, h1) = bind-some (interval seconds j.poll_interval) _ h in
    let (report, e1, h2) = bind-some (interval seconds j.report_interval) _ h1 in ground arith

module _ (libs : AgentLibs) (config : String) (args : List String) (f : Flags) (cfg : AgentConfig)
    (parsed : parse_agent_flags libs config args f ≡ some cfg) where
  -- The number of workers of an agent whose settings parse is positive, whatever the file, the flags
  -- and the environment say: so the channel of jobs has room and somebody reads it.
  pub parse_agent_flags-positive : (0 < cfg.rate_limit) × (cfg.rate_limit < 2 ^ 63)
  unfolding parse_agent_flags
  parse_agent_flags-positive =
      let (j, e, h) = bind-some (read_json libs (find_config_path config args)) _ parsed in
      let (_, _, last, _, _, _, eq) = parse_agent_json-steps libs f j cfg h in
      ground (arith, corrected-positive last)

  module _ (getenv : String → String) (parse_int : String → Option Int64)
      (law : IsAgentLibs libs getenv parse_int) where
    -- The polling interval of an agent whose settings parse is the first of these that is there: the
    -- variable POLL_INTERVAL, the flag -p, the interval of the file if it is not 0, the default of 2
    -- seconds.
    pub parse_agent_flags-poll_interval :
        (j : AgentJson) (seconds : Int64)
        → read_json libs (find_config_path config args) ≡ some j
        → interval libs.seconds j.poll_interval ≡ some seconds
        → (if getenv "POLL_INTERVAL" == ""
            then some (flag (lookup "p" f.numbers) (if eqb seconds 0 then 2 else seconds))
            else parse_int (getenv "POLL_INTERVAL"))
          ≡ some cfg.poll_interval
    unfolding parse_agent_flags
    parse_agent_flags-poll_interval j seconds reads file =
        let (from_json, merged, last, e, m, v, eq) =
          parse_agent_json-steps libs f j cfg (rw (reads, parse_agent_flags) at parsed) in
        let typed : seconds ≡ from_json.poll_interval =
          ground (arith, agent_config_from_json-poll libs.seconds j from_json e) in
        rw (eq, corrected-poll_interval last)
          (unfold with_agent_flags in
            rw (typed, sym (law.merge_poll from_json agent_defaults merged m))
              (law.env_poll (with_agent_flags f merged) last v))
