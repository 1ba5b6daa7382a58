-- ===== src/Cluster/Peer.antt =====
-- app/cluster/peer_tool.py. Pydantic and ADK's `AgentTool` are parameters: `deliver` is
-- `AgentTool.run_async`, which sends its arguments to the peer.
pub mod Typed
use adk_a2a_gke.Prelude.{
  String, ◌==◌, if◌then◌else◌, Option, none, some, [], ◌∷◌, Attempt, raised, value_error,
}
use adk_a2a_gke.Json.{Fields}
use adk_a2a_gke.Agents.Contracts.{string, Contract}
use adk_a2a_gke.Cluster.Config.{PeerTool}

-- `model_validate`, which is `none` where it raises, `model_dump(mode="json")` and
-- `model_json_schema`
pub record Pydantic (N P : Type 0) : Type 0 where
  pub model_validate : Contract → Fields N → Option P
  pub model_dump : P → Fields N
  pub model_json_schema : Contract → Fields N

pub record FunctionDeclaration (N : Type 0) : Type 0 where
  pub name : String
  pub description : String
  pub parameters_json_schema : Fields N

-- `UnknownPeerRequest` of app/cluster/resolver.py, the contract of a peer that declares none
abbrev pub unknown_peer_request : Contract
unknown_peer_request = record {
  name = "UnknownPeerRequest";
  fields =
      record {
        name = "case_id";
        field_type = string;
        default_value = none;
        description = "Identifier correlating all work for one case or request.";
      }
      ∷ record {
        name = "task";
        field_type = string;
        default_value = none;
        description =
            "The complete, self-contained task for this agent. It cannot see the conversation this request came from.";
      }
      ∷ [];
}

-- `__init__` over a peer's name, card and description
unfoldable pub wrap : String → String → String → Contract → String → PeerTool Contract
wrap name agent_card agent_description contract description = record {
  name = name;
  agent_card = agent_card;
  payload_schema = contract;
  description = if description == "" then agent_description else description;
}

module _ {N P : Type 0} (p : Pydantic N P) where
  unfoldable pub get_declaration : PeerTool Contract → FunctionDeclaration N
  get_declaration t = record {
    name = t.name;
    description = t.description;
    parameters_json_schema = p.model_json_schema t.payload_schema;
  }

  unfoldable pub run_async :
      {R W : Type 0}
      → (Fields N → W → Attempt R × W)
      → PeerTool Contract
      → Fields N
      → W
      → Attempt R × W
  run_async deliver t args w = elim (p.model_validate t.payload_schema args) [
    | none ↦ (raised value_error, w)
    | some payload ↦ deliver (p.model_dump payload) w
  ]
