-- ===== src/Logger/Init.antt =====
-- internal/logger/logger.go: the global logger and its initialisation, once for the process.
use study_project_metrics_an.Base.{
  ℕ, String, ◌≡◌, refl, ap, ◌∙◌, Bool, true, false, Option, none, some, List, [], ◌∷◌, ◌++◌,
  if◌then◌else◌,
}
use Prim.Native.String

-- lumberjack.Logger
pub record LogFile : Type 0 where
  pub filename : String
  pub max_size : ℕ
  pub max_backups : ℕ
  pub max_age : ℕ
  pub compress : Bool

pub data TimeFormat : Type 0 where
  rfc3339 unix : TimeFormat

-- zerolog's logger, which writes to the standard error until Init sets another.
pub data Logger : Type 0 where
  standard : Logger
  to_file : LogFile → Logger

-- The state of the process that Init reads and sets: sync.Once, log.Logger, the time format, what was
-- written to the standard error, and the messages that went to log.Logger.
pub record Process : Type 0 where
  pub once : Bool
  pub logger : Logger
  pub time_field_format : TimeFormat
  pub stderr : String
  pub messages : List String

abbrev pub fresh : Process
fresh = record {
  once = false;
  logger = standard;
  time_field_format = rfc3339;
  stderr = "";
  messages = [];
}

abbrev pub log_file : LogFile
log_file = record {
  filename = "logs/app.log";
  max_size = 100;
  max_backups = 7;
  max_age = 30;
  compress = true;
}

-- An error of MkdirAll is reported and nothing more.
abbrev pub warned : Option String → String → String
warned none stderr = stderr
warned (some e) stderr =
    String.◌++◌ stderr (String.◌++◌ "Failed to create logs directory: " (String.◌++◌ e "\n"))

-- The function that `once` gets.
abbrev pub set_logger : Option String → Process → Process
set_logger mkdir_error p = record p {
  stderr = warned mkdir_error p.stderr;
  time_field_format = unix;
  logger = to_file log_file;
  messages = p.messages ++ ("Logger initialized and writing to logs/app.log" ∷ []);
}

-- `mkdir_error` is the text of the error of MkdirAll, where there is one.
unfoldable pub init : Option String → Process → Process
init mkdir_error p = if p.once then p else record (set_logger mkdir_error p) { once = true }

abbrev pub get_logger : Process → Logger
get_logger p = p.logger

-- Calls of Init, each with the error that MkdirAll would give.
unfoldable pub init_all : List (Option String) → Process → Process
unfolding init
init_all [] p = p
init_all (e ∷ es) p = init_all es (init e p)

init-once : (e : Option String) (p : Process) → p.once ≡ true → init e p ≡ p
unfolding init
init-once e p h = ap (λ b. if b then p else record (set_logger e p) { once = true }) h

init_all-once : (es : List (Option String)) (p : Process) → p.once ≡ true → init_all es p ≡ p
unfolding init_all
init_all-once [] p h = refl
init_all-once (e ∷ es) p h = ap (init_all es) (init-once e p h) ∙ init_all-once es p h

-- However often Init is called, and even if the directory cannot be made, only the first call has an
-- effect: the logger is the file, and the message stands in it once.
pub init_all-first :
    (e : Option String) (es : List (Option String))
    → init_all (e ∷ es) fresh ≡ init e fresh
      × (get_logger (init_all (e ∷ es) fresh) ≡ to_file log_file)
unfolding init_all
init_all-first e es =
    let once = init_all-once es (init e fresh) refl in (once, ap (λ p. get_logger p) once)
