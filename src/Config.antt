-- ===== src/Config.antt =====
-- internal/config/config.go: how the server finds its settings. dario.cat/mergo and caarlos0/env are
-- parameters; of package flag the model has that a flag is what the command line sets, else its
-- default.
pub mod Path
pub mod Priority
pub mod Agent
mod Tests
use Prim.Native.Char.{code}
use Prim.Native.String
use study_project_metrics_an.Base.{
  ℕ, String, Bool, true, false, Option, none, some, List, [], ◌∷◌, ◌==◌, eqb, if◌then◌else◌,
}
use study_project_metrics_an.Base.Assoc.{Assoc, lookup}
use study_project_metrics_an.Base.Int64.{Int64}

-- The rest of a text behind a prefix: strings.HasPrefix and the slice behind it.
unfoldable pub behind : String → String → Option String
behind String.[] t = some t
behind (String.◌∷◌ c p) String.[] = none
behind (String.◌∷◌ c p) (String.◌∷◌ d t) = if eqb (code c) (code d) then behind p t else none

abbrev first_or : List String → String → String
first_or [] path = path
first_or (next ∷ rest) path = next

-- The inner loop at one argument, with the arguments behind it: the new path if a name matches.
unfoldable pub match_names : List String → String → List String → String → Option String
unfolding behind
match_names [] arg rest path = none
match_names (name ∷ names) arg rest path =
    let others = match_names names arg rest path in
    if arg == name
    then some (first_or rest path)
    else elim (behind (String.◌++◌ name "=") arg) [ some value ↦ some value | none ↦ others ]

abbrev pub config_names : List String
config_names = "-c" ∷ "--c" ∷ "-config" ∷ "--config" ∷ []

abbrev pub or_path : Option String → String → String
or_path none path = path
or_path (some found) path = found

-- The loop over the arguments.
unfoldable pub scan : List String → String → String
unfolding match_names
scan [] path = path
scan (arg ∷ rest) path = scan rest (or_path (match_names config_names arg rest path) path)

-- The value of CONFIG, "" where it is not set, and the arguments behind the program's name.
unfoldable pub find_config_path : String → List String → String
unfolding scan
find_config_path config args = scan args config

pub record ServerConfig : Type 0 where
  pub key : String
  pub address : String
  pub store_interval_sec : Int64
  pub file_storage_path : String
  pub restore : Bool
  pub database_dsn : String
  pub rate_limit : Int64
  pub audit_file : String
  pub audit_url : String
  pub crypto_key : String
  pub trusted_subnet : String
  pub grpc_address : String

pub record ServerJson : Type 0 where
  pub address : String
  pub restore : Option Bool
  pub store_interval : String
  pub store_file : String
  pub database_dsn : String
  pub crypto_key : String
  pub trusted_subnet : String
  pub grpc_address : String

abbrev pub zero_config : ServerConfig
zero_config = record {
  key = "";
  address = "";
  store_interval_sec = 0;
  file_storage_path = "";
  restore = false;
  database_dsn = "";
  rate_limit = 0;
  audit_file = "";
  audit_url = "";
  crypto_key = "";
  trusted_subnet = "";
  grpc_address = "";
}

abbrev pub server_defaults : ServerConfig
server_defaults = record zero_config {
  address = "localhost:8080";
  rate_limit = 5;
  store_interval_sec = 300;
  file_storage_path = "metrics-db.json";
}

abbrev or_false : Option Bool → Bool
or_false none = false
or_false (some b) = b

-- What the file sets where its store_interval is this number of seconds.
abbrev pub typed : ServerJson → Int64 → ServerConfig
typed j seconds = record zero_config {
  address = j.address;
  file_storage_path = j.store_file;
  database_dsn = j.database_dsn;
  crypto_key = j.crypto_key;
  trusted_subnet = j.trusted_subnet;
  grpc_address = j.grpc_address;
  store_interval_sec = seconds;
  restore = or_false j.restore;
}

abbrev pub with_interval : ServerJson → Option Int64 → Option ServerConfig
with_interval j none = none
with_interval j (some n) = some (typed j n)

-- `seconds` is time.ParseDuration and the whole seconds of its result.
unfoldable pub server_config_from_json : (String → Option Int64) → ServerJson → Option ServerConfig
server_config_from_json seconds j =
    if j.store_interval == "" then some (typed j 0) else with_interval j (seconds j.store_interval)

-- The flags that the command line sets, by kind, and the arguments that are no flags.
pub record Flags : Type 0 where
  pub texts : Assoc String
  pub numbers : Assoc Int64
  pub bools : Assoc Bool
  pub rest : List String

abbrev pub flag {ℓ} : {V : Type ℓ} → Option V → V → V
flag none default = default
flag (some v) default = v

-- The variables of the flags after flag.Parse.
unfoldable pub with_flags : Flags → ServerConfig → ServerConfig
with_flags f d = record {
  address = flag (lookup "a" f.texts) d.address;
  key = flag (lookup "k" f.texts) "";
  database_dsn = flag (lookup "d" f.texts) d.database_dsn;
  rate_limit = flag (lookup "l" f.numbers) d.rate_limit;
  store_interval_sec = flag (lookup "i" f.numbers) d.store_interval_sec;
  file_storage_path = flag (lookup "f" f.texts) d.file_storage_path;
  restore = flag (lookup "r" f.bools) d.restore;
  audit_file = flag (lookup "audit-file" f.texts) "";
  audit_url = flag (lookup "audit-url" f.texts) "";
  crypto_key = flag (lookup "crypto-key" f.texts) d.crypto_key;
  trusted_subnet = flag (lookup "t" f.texts) d.trusted_subnet;
  grpc_address = flag (lookup "grpc" f.texts) d.grpc_address;
}

-- mergo.Merge and env.Parse, which can fail, and the reading of a file.
pub record Libs : Type 0 where
  pub load_json : String → Option ServerJson
  pub seconds : String → Option Int64
  pub merge : ServerConfig → ServerConfig → Option ServerConfig
  pub env : ServerConfig → Option ServerConfig

abbrev pub no_json : ServerJson
no_json = record {
  address = "";
  restore = none;
  store_interval = "";
  store_file = "";
  database_dsn = "";
  crypto_key = "";
  trusted_subnet = "";
  grpc_address = "";
}

abbrev pub no_arguments : List String → ServerConfig → Option ServerConfig
no_arguments [] cfg = some cfg
no_arguments (a ∷ rest) cfg = none

abbrev pub finish : Flags → Option ServerConfig → Option ServerConfig
finish f none = none
finish f (some cfg) = no_arguments f.rest cfg

abbrev pub overlay : Libs → Flags → Option ServerConfig → Option ServerConfig
overlay libs f none = none
overlay libs f (some merged) = finish f (libs.env (with_flags f merged))

abbrev pub fill : Libs → Flags → Option ServerConfig → Option ServerConfig
fill libs f none = none
fill libs f (some from_json) = overlay libs f (libs.merge from_json server_defaults)

-- Steps 2 to 5 with the parsed file.
unfoldable pub parse_json : Libs → Flags → ServerJson → Option ServerConfig
unfolding server_config_from_json with_flags
parse_json libs f j = fill libs f (server_config_from_json libs.seconds j)

-- `config` is CONFIG and `args` the arguments, of which `f` is what package flag reads.
unfoldable pub parse_flags : Libs → String → List String → Flags → Option ServerConfig
unfolding find_config_path parse_json
parse_flags libs config args f =
    if find_config_path config args == ""
    then parse_json libs f no_json
    else elim (libs.load_json (find_config_path config args)) [
      | none ↦ none
      | some j ↦ parse_json libs f j
    ]
