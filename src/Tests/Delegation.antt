-- ===== src/Tests/Delegation.antt =====
-- The orchestrator's tools and the surfaces of its process at concrete inputs.
use mathlib.Core.Option
use adk_a2a_gke.Prelude.{
  ℕ, ◌≡◌, ◌↔◌, refl, inl, true, false, ◌==◌, Env, Option, none, some, List, [], ◌∷◌, ◌++◌, map,
  Attempt, returned, Bool, lookup, insert, values,
}
use adk_a2a_gke.Json.{str, Fields, end, field}
use adk_a2a_gke.Agents.Contracts.{Contract, payloads}
use adk_a2a_gke.Agents.Team.{Tool, orchestrator, agents, default_agent}
use adk_a2a_gke.Cluster.Config.{PeerTool, AgentResolver, resolve_peer, resolve_all}
use adk_a2a_gke.Cluster.Database.{DatabaseConfig, settings, enabled}
use adk_a2a_gke.Cluster.Database.Closing.{Call, asks, closes, constructed, run, aclose}
use adk_a2a_gke.Cluster.Database.Closing.Released.{held, aclose_releases}
use adk_a2a_gke.Cluster.Peer.{Pydantic, unknown_peer_request}
use adk_a2a_gke.Cluster.Peer.Typed.{payload_of, Delegates}
use adk_a2a_gke.Shared.Catalog.{Gemini}
use adk_a2a_gke.Wiring.Services.{in_memory}
use adk_a2a_gke.Wiring.Agent.{
  restate_structured_results, own, peer, Models, Process, provide_config, provide_resolver, start,
}
use adk_a2a_gke.Wiring.Surfaces.{
  Registry, registered, overridden, lifespan, web_sessions, web_artifacts,
}
use adk_a2a_gke.Wiring.Surfaces.Shared.{surfaces_share}
use adk_a2a_gke.Text.{strip}
use adk_a2a_gke.Wiring.Delegates.{started_delegation}
use adk_a2a_gke.Tests.Reading.{integers, letters}

abbrev unset : Env
unset name = none

-- a Pydantic that follows the documentation
abbrev pydantic : Pydantic ℕ (Fields ℕ)
pydantic = record {
  model_validate = λ c args. payload_of c.fields args;
  model_dump = λ fs. fs;
  model_json_schema = λ c. end;
}

map-same : (o : Option (Fields ℕ)) → Option.map (λ fs. fs) o ≡ o
map-same none = refl
map-same (some fs) = refl

-- a network that keeps what it is sent
abbrev deliver : Fields ℕ → List (Fields ℕ) → Attempt ℕ × List (Fields ℕ)
deliver fs sent = (returned 0, fs ∷ sent)

abbrev gemini : Gemini
gemini = record { model = "gemini-2.5-flash"; attempts = 3; api_client = none }

abbrev models : Models
models = record { fast = gemini; balanced = gemini; capable = gemini }

abbrev resolver : AgentResolver Contract
resolver =
    provide_resolver payloads unknown_peer_request "/card"
      (provide_config integers unset agents default_agent)

abbrev started : Process Tool Contract
started = record {
  resolver = resolver;
  session_service = in_memory;
  memory_service = in_memory;
  artifact_service = none;
  task_store = in_memory;
  case_store = in_memory;
  database = settings integers letters unset "orchestrator";
  root_agent = record {
    name = orchestrator.name;
    model = gemini;
    description = orchestrator.description;
    instruction = orchestrator.instruction;
    tools = map own orchestrator.tools ++ map peer (resolve_all resolver);
    after_agent_callback = restate_structured_results;
  };
}

abbrev tool : PeerTool Contract
tool =
    resolve_peer resolver
      (record { name = "research"; base_url = "http://research.agents.svc.cluster.local" })

abbrev args : Fields ℕ
args = field "question" (str "Why?") (field "case_id" (str "c1") (field "extra" (str "x") end))

started_delegation_example :
    (c : Contract) × (lookup "research" payloads ≡ some c)
    × Delegates pydantic deliver tool c args []
unfolding start agents resolve_all provide_config lookup insert values
started_delegation_example =
    started_delegation pydantic (λ c fs. map-same (payload_of c.fields fs)) integers letters unset
      unknown_peer_request "/card" "" "" deliver models started tool args [] refl refl (inl refl)

abbrev registry_left : Registry
registry_left = registered unset

surfaces_share_example :
    let s = lifespan "/card" "/extended" unset started in
    ((web_sessions registry_left ≡ some s.runner_sessions)
      ↔ (enabled (settings integers letters unset "") ≡ true))
    × ((web_artifacts registry_left ≡ some s.runner_artifacts) ↔ ((strip "" == "") ≡ false))
unfolding overridden enabled registered
surfaces_share_example =
    surfaces_share started integers letters unset "/card" "/extended" registry_left refl

by_url : DatabaseConfig
by_url = record (settings integers letters unset "orchestrator") { backend = "alloydb" }

abbrev calls : List Call
calls = asks true ∷ asks true ∷ closes true true ∷ asks true ∷ closes false true ∷ []

aclose_releases_example :
    let h = run by_url calls constructed in
    let after = (aclose true true h).1 in
    (h.engines ≡ held h.engine)
    × (h.connectors ≡ held h.connector)
    × (after.engines ≡ [])
    × (after.connectors ≡ [])
    × ((disposes closed : Bool) → aclose disposes closed after ≡ (returned tt, after))
aclose_releases_example = aclose_releases by_url calls (refl, (refl, (refl, (refl, (refl, tt)))))
