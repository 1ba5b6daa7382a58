-- ===== src/Wiring/Agent.antt =====
-- app/cluster/di.py, app/agents/base.py and app/agent.py: the agent that a process becomes. The
-- models are a parameter, which the catalogue provides.
use adk_a2a_gke.Prelude.{
  String, ◌==◌, if◌then◌else◌, Env, env_get, or_text, Option, none, some, List, [], ◌∷◌, ◌++◌, map,
  Dict, lookup, insert, Attempt, returned, raised, value_error, key_error, ◌>>=◌,
}
use adk_a2a_gke.Text.{strip}
use adk_a2a_gke.Shared.Catalog.{Gemini}
use adk_a2a_gke.Cluster.Config.{
  Integers, ClusterConfig, from_env, PeerTool, AgentResolver, resolve_all,
}
use adk_a2a_gke.Cluster.Database.{
  Letters, DatabaseConfig, Checked, accepted, refused, build_database,
}
use adk_a2a_gke.Wiring.Services.{
  Service, build_session_service, build_memory_service, build_task_store, build_artifact_service,
  build_case_store,
}

pub record AgentSpec (Tool : Type 0) : Type 0 where
  pub name : String
  pub description : String
  pub instruction : String
  pub tier : String
  pub tools : List Tool
  pub peers : List String

pub record Models : Type 0 where
  pub fast : Gemini
  pub balanced : Gemini
  pub capable : Gemini

-- a tool of the agent's own, or one that calls a peer
pub data AnyTool (Tool Schema : Type 0) : Type 0 where
  own : Tool → AnyTool Tool Schema
  peer : PeerTool Schema → AnyTool Tool Schema

-- the callback that every agent is given, `restate` of Agents.Reporting
pub data AfterAgentCallback : Type 0 where
  restate_structured_results : AfterAgentCallback

pub record LlmAgent (Tool Schema : Type 0) : Type 0 where
  pub name : String
  pub model : Gemini
  pub description : String
  pub instruction : String
  pub tools : List (AnyTool Tool Schema)
  pub after_agent_callback : AfterAgentCallback

-- the model of a tier, `none` for a name that is none of `TIERS`
unfoldable pub model_of : Models → String → Option Gemini
model_of models tier =
    if tier == "fast"
    then some models.fast
    else if tier == "balanced"
    then some models.balanced
    else if tier == "capable"
    then some models.capable
    else none

-- What app/agent.py exports.
pub record Process (Tool Schema : Type 0) : Type 0 where
  pub resolver : AgentResolver Schema
  pub session_service : Service
  pub memory_service : Service
  pub artifact_service : Option String
  pub task_store : Service
  pub case_store : Service
  pub database : DatabaseConfig
  pub root_agent : LlmAgent Tool Schema

abbrev pub as_attempt : Checked → Attempt DatabaseConfig
as_attempt (accepted c) = returned c
as_attempt (refused e) = raised value_error

-- `provide_resolver`: `payloads` is `PAYLOADS`
unfoldable pub provide_resolver :
    {Schema : Type 0} → Dict Schema → Schema → String → ClusterConfig → AgentResolver Schema
provide_resolver payloads unknown well_known config = record {
  config = config;
  payload_schemas = payloads;
  unknown = unknown;
  well_known = well_known;
}

-- `SessionModule`: the services over the settings and the shared `Database`.
unfoldable pub provide_database : Integers → Letters → Env → Attempt DatabaseConfig
unfolding build_database
provide_database z letters env = as_attempt (build_database z letters env)

unfoldable pub provide_session_service :
    Letters → Env → String → String → DatabaseConfig → Attempt Service
unfolding build_session_service
provide_session_service letters env project location database =
    build_session_service letters env project location (some database)

unfoldable pub provide_case_store : DatabaseConfig → Service
unfolding build_case_store
provide_case_store database = build_case_store database

unfoldable pub provide_task_store : Letters → Env → DatabaseConfig → Attempt Service
unfolding build_task_store
provide_task_store letters env database = build_task_store letters env (some database)

unfoldable pub provide_memory_service : Letters → Env → String → String → Attempt Service
unfolding build_memory_service
provide_memory_service letters env project location =
    build_memory_service letters env project location

unfoldable pub provide_artifact_service : Env → Option String
unfolding build_artifact_service
provide_artifact_service env = build_artifact_service env

module _ {Tool : Type 0} where
  unfoldable pub add_all : List (AgentSpec Tool) → Dict (AgentSpec Tool) → Dict (AgentSpec Tool)
  add_all [] d = d
  add_all (spec ∷ specs) d = add_all specs (insert spec.name spec d)

  -- `{spec.name: spec for spec in specs}`
  unfoldable pub registry : List (AgentSpec Tool) → Dict (AgentSpec Tool)
  unfolding add_all insert
  registry specs = add_all specs []

  abbrev pub peers_of : Option (AgentSpec Tool) → List String
  peers_of none = []
  peers_of (some spec) = spec.peers

  -- `provide_config`, where `default_agent` is `DEFAULT_AGENT`
  unfoldable pub provide_config : Integers → Env → Dict (AgentSpec Tool) → String → ClusterConfig
  unfolding from_env strip lookup
  provide_config z env agents default_agent =
      let name = or_text (strip (env_get env "AGENT_NAME" default_agent)) default_agent in
      from_env z env (some name) (peers_of (lookup name agents))

  module _ {Schema : Type 0} where
    abbrev pub built :
        AgentSpec Tool → AgentResolver Schema → Option Gemini → Attempt (LlmAgent Tool Schema)
    built spec resolver none = raised value_error
    built spec resolver (some model) = returned (record {
      name = spec.name;
      model = model;
      description = spec.description;
      instruction = spec.instruction;
      tools = map own spec.tools ++ map peer (resolve_all resolver);
      after_agent_callback = restate_structured_results;
    })

    unfoldable pub build_agent :
        AgentSpec Tool → Models → AgentResolver Schema → Attempt (LlmAgent Tool Schema)
    unfolding model_of resolve_all
    build_agent spec models resolver = built spec resolver (model_of models spec.tier)

    -- `build_agent(AGENTS[_name], ...)`, or the `KeyError`
    abbrev pub selected :
        Option (AgentSpec Tool) → Models → AgentResolver Schema → Attempt (LlmAgent Tool Schema)
    selected none models resolver = raised key_error
    selected (some spec) models resolver = build_agent spec models resolver

    -- The module body of app/agent.py: the services in the order in which they are resolved.
    unfoldable pub start :
        Integers
        → Letters
        → Env
        → List (AgentSpec Tool)
        → String
        → Dict Schema
        → Schema
        → String
        → Attempt Models
        → String
        → String
        → Attempt (Process Tool Schema)
    unfolding provide_resolver registry lookup provide_config provide_database
        provide_session_service provide_memory_service provide_task_store provide_artifact_service
        provide_case_store build_agent
    start z letters env specs default_agent payloads unknown well_known provided project location =
        let agents = registry specs in
        let resolver =
          provide_resolver payloads unknown well_known
            (provide_config z env agents default_agent) in
        provided >>= λ models. provide_database z letters env >>= λ c.
        provide_session_service letters env project location c >>= λ sessions.
        provide_memory_service letters env project location >>= λ memory.
        provide_task_store letters env c >>= λ tasks.
        selected (lookup resolver.config.name agents) models resolver >>= λ root. returned (record {
          resolver = resolver;
          session_service = sessions;
          memory_service = memory;
          artifact_service = provide_artifact_service env;
          task_store = tasks;
          case_store = provide_case_store c;
          database = c;
          root_agent = root;
        })
