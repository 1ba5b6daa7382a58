-- ===== src/Wiring/Services.antt =====
-- app/cluster/session.py, app/cluster/tasks.py, app/cluster/artifacts.py and `build_case_store`:
-- which service a setting selects.
use adk_a2a_gke.Prelude.{
  String, ◌==◌, if◌then◌else◌, Env, env_get, Option, none, some, Attempt, returned, raised,
  value_error,
}
use adk_a2a_gke.Text.{strip}
use adk_a2a_gke.Cluster.Database.{Letters, DatabaseConfig, enabled}

-- A session or memory service. `on_database` shares the engine of the process's `Database`, of
-- which the configuration is kept; `managed` is the service of Vertex AI.
pub data Service : Type 0 where
  in_memory : Service
  on_database : DatabaseConfig → Service
  on_url : String → Service
  managed : Option String → Option String → Option String → Service

-- `text or None`
abbrev pub or_none : String → Option String
or_none s = if s == "" then none else some s

-- `os.environ.get(AGENT_ENGINE_ID_ENV) or None`
abbrev pub engine_id : Option String → Option String
engine_id none = none
engine_id (some s) = or_none s

-- what a backend on the shared database gets, or the `ValueError` without one
abbrev pub on_enabled : Option DatabaseConfig → Attempt Service
on_enabled none = raised value_error
on_enabled (some c) = if enabled c then returned (on_database c) else raised value_error

module _ (letters : Letters) (env : Env) where
  -- `os.environ.get(variable, IN_MEMORY).strip().lower()`
  unfoldable pub backend_in : String → String
  unfolding strip
  backend_in variable = letters.lower (strip (env_get env variable "in_memory"))

  unfoldable pub build_session_service : String → String → Option DatabaseConfig → Attempt Service
  unfolding backend_in strip enabled
  build_session_service project location database =
      let backend = backend_in "SESSION_BACKEND" in
      let db_url = strip (env_get env "SESSION_DB_URL" "") in
      if backend == "in_memory"
      then returned in_memory
      else if backend == "alloydb"
      then on_enabled database
      else if backend == "database"
      then if db_url == "" then raised value_error else returned (on_url db_url)
      else if backend == "vertex_ai"
      then returned
          (managed (or_none project) (or_none location) (engine_id (env "AGENT_ENGINE_ID")))
      else raised value_error

  unfoldable pub build_memory_service : String → String → Attempt Service
  unfolding backend_in
  build_memory_service project location =
      let backend = backend_in "MEMORY_BACKEND" in
      if backend == "in_memory"
      then returned in_memory
      else if backend == "vertex_ai"
      then returned
          (managed (or_none project) (or_none location) (engine_id (env "AGENT_ENGINE_ID")))
      else raised value_error

  unfoldable pub build_task_store : Option DatabaseConfig → Attempt Service
  unfolding backend_in enabled
  build_task_store database =
      let backend = backend_in "TASK_STORE_BACKEND" in
      if backend == "in_memory"
      then returned in_memory
      else if backend == "database"
      then on_enabled database
      else raised value_error

-- The artifact service: in memory, or at a location.
unfoldable pub build_artifact_service : Env → Option String
unfolding strip
build_artifact_service env = or_none (strip (env_get env "ARTIFACT_STORAGE_URI" ""))

unfoldable pub build_case_store : DatabaseConfig → Service
unfolding enabled
build_case_store c = if enabled c then on_database c else in_memory
