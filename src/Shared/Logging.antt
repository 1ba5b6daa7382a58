-- ===== src/Shared/Logging.antt =====
-- app/shared/logging.py: what a process's logging is set up to, and what a record becomes. The
-- levels that `logging` and loguru know, `json.dumps` and the terminal are parameters.
pub mod Routed
pub mod Payload
pub mod Intercept
use mathlib.Core.Option
use adk_a2a_gke.Prelude.{
  ℕ, String, Bool, true, false, not, ◌&&◌, ◌==◌, if◌then◌else◌, Env, env_get, or_text, Option, none,
  some, List, [], ◌∷◌, Dict, insert, Attempt, returned, raised, value_error,
}
use adk_a2a_gke.Text.{strip}
use adk_a2a_gke.Cluster.Database.{Letters}

-- A library's logger: its own handlers, and whether its records reach the root.
pub record Logger : Type 0 where
  pub handlers : List ℕ
  pub propagate : Bool

-- A loguru sink with the level from which on it writes.
pub data Sink : Type 0 where
  json console : String → Sink

-- The handlers of the root logger: the `InterceptHandler` alone, or what was there before.
pub data Root : Type 0 where
  intercept : Root
  other : List ℕ → Root

pub record Logs : Type 0 where
  pub configured : Bool
  pub root : Root
  pub root_level : String
  pub loggers : Dict Logger
  pub patcher : Option String
  pub sinks : List Sink

-- `_STDLIB_LOGGERS_TO_RESET`
abbrev pub loggers_to_reset : List String
loggers_to_reset =
    "uvicorn" ∷ "uvicorn.error" ∷ "uvicorn.access" ∷ "gunicorn" ∷ "gunicorn.error" ∷ "fastapi"
    ∷ "google_adk" ∷ "google.adk" ∷ "google.genai" ∷ []

-- the loop over the loggers
unfoldable pub reset_all : List String → Dict Logger → Dict Logger
unfolding insert
reset_all [] d = d
reset_all (name ∷ names) d =
    reset_all names (insert name (record { handlers = []; propagate = true }) d)

-- The level names that `logging` and loguru know, and whether stderr is a terminal.
pub record Platform : Type 0 where
  pub logging_knows : String → Bool
  pub loguru_knows : String → Bool
  pub is_tty : Bool

-- The arguments of `configure_logging`.
pub record Setup : Type 0 where
  pub project : String
  pub level : Option String
  pub json_logs : Option Bool
  pub force : Bool

module _ (letters : Letters) (platform : Platform) (env : Env) where
  unfoldable pub use_json : Option Bool → Bool
  unfolding strip
  use_json (some explicit) = explicit
  use_json none =
      let fmt = letters.lower (strip (env_get env "LOG_FORMAT" "")) in
      if fmt == "json" then true else if fmt == "console" then false else not platform.is_tty

  unfoldable pub level_of : Option String → String
  level_of level =
      letters.upper
        (or_text (or_text (Option.get_or level "") (Option.get_or (env "LOG_LEVEL") "")) "INFO")

  -- `logger.add` after `logger.remove`: a level that loguru does not know leaves no sink
  unfoldable pub add_sink : Setup → String → Logs → Attempt (Unit {0}) × Logs
  unfolding use_json
  add_sink setup level logs =
      let sink = if use_json setup.json_logs then json level else console level in
      if platform.loguru_knows level
      then (returned tt, record logs { sinks = sink ∷ []; configured = true })
      else (raised value_error, record logs { sinks = [] })

  -- the root handler, the libraries' loggers and the patcher
  unfoldable pub rerouted : Setup → String → Logs → Logs
  unfolding reset_all
  rerouted setup level logs = record logs {
    root = intercept;
    root_level = level;
    loggers = reset_all loggers_to_reset logs.loggers;
    patcher = some (or_text setup.project (env_get env "GOOGLE_CLOUD_PROJECT" ""));
  }

  -- `configure_logging` past its guard: `basicConfig` installs the handler before it checks the
  -- level
  unfoldable pub reconfigure : Setup → String → Logs → Attempt (Unit {0}) × Logs
  unfolding rerouted add_sink
  reconfigure setup level logs =
      let rest = add_sink setup level (rerouted setup level logs) in
      if platform.logging_knows level
      then rest
      else (raised value_error, record logs { root = intercept })

  unfoldable pub configure_logging : Setup → Logs → Attempt (Unit {0}) × Logs
  unfolding reconfigure level_of
  configure_logging setup logs =
      let rest = reconfigure setup (level_of setup.level) logs in
      if logs.configured && not setup.force then (returned tt, logs) else rest
