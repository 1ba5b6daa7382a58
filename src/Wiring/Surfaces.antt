-- ===== src/Wiring/Surfaces.antt =====
-- app/app_utils/services.py, app/app_utils/a2a.py, and of app/fast_api_app.py the module body and
-- `lifespan`: which services the surfaces of a process use. ADK's service registry, FastAPI and
-- the A2A library only keep what they are handed.
pub mod Shared
use adk_a2a_gke.Prelude.{
  String, Bool, true, ◌==◌, if◌then◌else◌, Env, env_get, Option, none, some, List, [], ◌∷◌, Dict,
  lookup, insert, Attempt, returned, ◌>>=◌,
}
use adk_a2a_gke.Text.{strip, split, concat}
use adk_a2a_gke.Cluster.Config.{Integers}
use adk_a2a_gke.Cluster.Database.{Letters, from_env, enabled}
use adk_a2a_gke.Wiring.Services.{Service, or_none}
use adk_a2a_gke.Wiring.Agent.{Process, LlmAgent, as_attempt}

-- what services.py constructs
pub data WebService : Type 0 where
  from_uri : String → WebService
  agent_engine : Option String → Option String → String → WebService
  gcs_bucket : String → WebService
  in_memory : WebService

-- A service as an object: the one that app/agent.py exports, or the one that the `functools.cache`
-- of services.py keeps. These two are never the same object.
pub data Instance (A : Type 0) : Type 0 where
  exported : A → Instance A
  cached : WebService → Instance A

-- `if value := os.environ.get(variable)`
abbrev pub nonempty : Env → String → Option String
nonempty env variable = elim (env variable) [ none ↦ none | some v ↦ or_none v ]

-- `os.environ.get(a) or os.environ.get(b)`
abbrev pub either_env : Env → String → String → Option String
either_env env a b = elim (nonempty env a) [ none ↦ env b | some v ↦ some v ]

unfoldable pub get_session_service : Env → WebService
get_session_service env = elim (nonempty env "SESSION_SERVICE_URI") [
  | some uri ↦ from_uri uri
  | none ↦ elim (nonempty env "GOOGLE_CLOUD_AGENT_ENGINE_ID") [
    | some id ↦
        agent_engine (env "GOOGLE_CLOUD_PROJECT")
          (either_env env "GOOGLE_CLOUD_AGENT_ENGINE_LOCATION" "GOOGLE_CLOUD_LOCATION") id
    | none ↦ in_memory
  ]
]

unfoldable pub get_artifact_service : Env → WebService
get_artifact_service env = elim (nonempty env "LOGS_BUCKET_NAME") [
  | some bucket ↦ gcs_bucket bucket
  | none ↦ in_memory
]

-- ADK's service registry: for each scheme, what its factory returns.
pub record Registry : Type 0 where
  pub sessions : Dict (Instance Service)
  pub artifacts : Dict (Instance (Option String))

-- the registrations of services.py
unfoldable pub registered : Env → Registry
unfolding get_session_service get_artifact_service insert
registered env = record {
  sessions = insert "shared" (cached (get_session_service env)) [];
  artifacts = insert "shared" (cached (get_artifact_service env)) [];
}

module _ {Tool Schema : Type 0} (p : Process Tool Schema) where
  abbrev pub share_sessions : Bool → Registry → Registry
  share_sessions configured r =
      if configured
      then record r { sessions = insert "shared" (exported p.session_service) r.sessions }
      else r

  abbrev pub share_artifacts : Bool → Registry → Registry
  share_artifacts unset r =
      if unset
      then r
      else record r { artifacts = insert "shared" (exported p.artifact_service) r.artifacts }

  -- The registrations that fast_api_app.py overrides, or the `ValueError` of the configuration.
  unfoldable pub overridden : Integers → Letters → Env → Attempt Registry
  unfolding registered from_env enabled strip insert
  overridden z letters env = as_attempt (from_env z letters env "") >>= λ c. returned (
      share_artifacts (strip (env_get env "ARTIFACT_STORAGE_URI" "") == "")
        (share_sessions (enabled c) (registered env)))

-- `ALLOW_ORIGINS`, split at its commas
unfoldable pub allow_origins : Env → Option (List String)
unfolding split
allow_origins env = elim (nonempty env "ALLOW_ORIGINS") [
  | none ↦ none
  | some text ↦ some (split 44 text)
]

pub record AgentExtension : Type 0 where
  pub uri : String
  pub description : String

pub record AgentCapabilities : Type 0 where
  pub streaming : Bool
  pub extensions : List AgentExtension

abbrev pub default_capabilities : AgentCapabilities
default_capabilities = record {
  streaming = true;
  extensions =
      record {
        uri = "https://google.github.io/adk-docs/a2a/a2a-extension/";
        description = "Ability to use the new agent executor implementation";
      }
      ∷ [];
}

-- What the card builder is given, and the paths that are mounted.
pub record Routes (Agent : Type 0) : Type 0 where
  pub agent : Agent
  pub capabilities : AgentCapabilities
  pub card_rpc_url : String
  pub agent_version : String
  pub task_store : Service
  pub agent_card_url : String
  pub rpc_url : String
  pub extended_agent_card_url : String

abbrev pub or_env : Env → Option String → String → String → String
or_env env given variable default =
    let from_environment = env_get env variable default in
    elim given [ none ↦ from_environment | some v ↦ if v == "" then from_environment else v ]

-- `well_known` and `extended` are the constants of the A2A library.
unfoldable pub attach_a2a_routes :
    {Agent : Type 0}
    → String
    → String
    → Env
    → Agent
    → Service
    → String
    → Option AgentCapabilities
    → Option String
    → Option String
    → Routes Agent
unfolding concat
attach_a2a_routes well_known extended env agent task_store rpc_path capabilities agent_version
      app_url =
    record {
      agent = agent;
      capabilities = elim capabilities [ none ↦ default_capabilities | some c ↦ c ];
      card_rpc_url = concat (or_env env app_url "APP_URL" "http://0.0.0.0:8000" ∷ rpc_path ∷ []);
      agent_version = or_env env agent_version "AGENT_VERSION" "0.1.0";
      task_store = task_store;
      agent_card_url = concat (rpc_path ∷ well_known ∷ []);
      rpc_url = rpc_path;
      extended_agent_card_url = concat (rpc_path ∷ extended ∷ []);
    }

-- the `Runner` that `lifespan` builds, and what it stores on the application
pub record Serving (Tool Schema : Type 0) : Type 0 where
  pub runner_sessions : Instance Service
  pub runner_artifacts : Instance (Option String)
  pub agent_app_name : String
  pub case_store : Service
  pub routes : Routes (LlmAgent Tool Schema)

unfoldable pub lifespan :
    {Tool Schema : Type 0} → String → String → Env → Process Tool Schema → Serving Tool Schema
unfolding attach_a2a_routes concat
lifespan well_known extended env p = record {
  runner_sessions = exported p.session_service;
  runner_artifacts = exported p.artifact_service;
  agent_app_name = "app";
  case_store = p.case_store;
  routes =
      attach_a2a_routes well_known extended env p.root_agent p.task_store
        (concat ("/a2a/" ∷ "app" ∷ [])) none none none;
}

-- what `shared://session` and `shared://artifact` are for ADK's web routes
abbrev pub web_sessions : Registry → Option (Instance Service)
web_sessions r = lookup "shared" r.sessions

abbrev pub web_artifacts : Registry → Option (Instance (Option String))
web_artifacts r = lookup "shared" r.artifacts
