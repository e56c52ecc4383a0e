-- ===== src/Config/Tests.antt =====
-- The settings of a server with a configuration file and no environment.
use study_project_metrics_an.Base.{
  String, ◌≡◌, refl, ap, Option, none, some, [], ◌∷◌, ◌==◌, eqb, if◌then◌else◌,
}
use study_project_metrics_an.Base.Int64.{Int64}
use study_project_metrics_an.Base.Assoc.{lookup}
use study_project_metrics_an.Config.{
  ServerConfig, ServerJson, Flags, Libs, no_json, server_defaults, server_config_from_json,
  with_flags, parse_json, find_config_path, behind, match_names, scan,
}
use study_project_metrics_an.Config.Path.{IsPlain}
use study_project_metrics_an.Config.Priority.{IsLibs}

m1-IsPlain : IsPlain "m1.json"
unfolding match_names behind
m1-IsPlain rest path = refl

with_equals : find_config_path "env.json" ("-c=m2.json" ∷ []) ≡ "m2.json"
unfolding find_config_path scan match_names behind
with_equals = refl

abbrev text_of : String → String → String
text_of t other = if t == "" then other else t

abbrev merged : ServerConfig → ServerConfig → ServerConfig
merged d s = record d {
  address = text_of d.address s.address;
  store_interval_sec =
      if eqb d.store_interval_sec 0 then s.store_interval_sec else d.store_interval_sec;
}

abbrev seconds : String → Option Int64
seconds t = if t == "0s" then some 0 else none

abbrev libs : Libs
libs = record {
  load_json = λ path. none;
  seconds = seconds;
  merge = λ d s. some (merged d s);
  env = λ c. some c;
}

abbrev getenv : String → String
getenv name = ""

some-eq : (a b : ServerConfig) → some a ≡ some b → b ≡ a
some-eq a b h = cc

libs-IsLibs : IsLibs libs getenv
libs-IsLibs = record {
  merge_address = λ d s r h. ap (λ c. c.address) (some-eq (merged d s) r h);
  merge_interval = λ d s r h. ap (λ c. c.store_interval_sec) (some-eq (merged d s) r h);
  env_address = λ c r h. ap (λ c. c.address) (some-eq c r h);
  env_interval = λ c r h e. ap (λ c. c.store_interval_sec) (some-eq c r h);
}

abbrev flags : Flags
flags = record { texts = ("k", "secret") ∷ []; numbers = []; bools = []; rest = [] }

abbrev file : ServerJson
file = record no_json { address = "10.0.0.1:9090"; store_interval = "0s" }

abbrev result : ServerConfig
result = record server_defaults {
  address = "10.0.0.1:9090";
  key = "secret";
  rate_limit = 0;
  file_storage_path = "";
}

parsed : parse_json libs flags file ≡ some result
unfolding parse_json server_config_from_json with_flags lookup
parsed = refl

no_interval_flag : lookup "i" flags.numbers ≡ none
unfolding lookup
no_interval_flag = refl
