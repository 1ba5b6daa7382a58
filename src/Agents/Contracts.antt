-- ===== src/Agents/Contracts.antt =====
-- app/agents/contracts.py: the payloads of the specialists. A contract lists the fields of its
-- Pydantic model, those of its base class first.
use adk_a2a_gke.Prelude.{String, Option, none, some, List, [], ◌∷◌, ◌++◌, Dict}

-- `str` and `list[str]`
pub data FieldType : Type 0 where
  string strings : FieldType

-- `default=` and `default_factory=list`
pub data Default : Type 0 where
  text_default : String → Default
  empty_list : Default

-- A field that has no default is required.
pub record ContractField : Type 0 where
  pub name : String
  pub field_type : FieldType
  pub default_value : Option Default
  pub description : String

pub record Contract : Type 0 where
  pub name : String
  pub fields : List ContractField

abbrev pub approval_required : String
approval_required = "approval_required"

abbrev pub peer_request : Contract
peer_request = record {
  name = "PeerRequest";
  fields =
      (record {
        name = "case_id";
        field_type = string;
        default_value = none;
        description =
            "Identifier correlating all work for one case or request. Reuse the same value for follow-up calls about the same subject.";
      }
        ∷ record {
          name = "document_refs";
          field_type = strings;
          default_value = some empty_list;
          description =
              "Object-store URIs of documents the specialist should read itself, e.g. 'gs://bucket/cases/123/dossier.pdf'. Pass the reference, not the contents: never paste a document into this request.";
        }
        ∷ []);
}

abbrev pub research_request : Contract
research_request = record {
  name = "ResearchRequest";
  fields =
      peer_request.fields
      ++ (record {
        name = "question";
        field_type = string;
        default_value = none;
        description =
            "The single factual question to answer. State it in full: the specialist cannot see the conversation it came from.";
      }
          ∷ record {
            name = "constraints";
            field_type = string;
            default_value = some (text_default "");
            description =
                "Optional scope the answer must respect, e.g. a jurisdiction, a date range, or a required source.";
          }
          ∷ []);
}

abbrev pub math_request : Contract
math_request = record {
  name = "MathRequest";
  fields =
      peer_request.fields
      ++ (record {
        name = "expression";
        field_type = string;
        default_value = none;
        description =
            "The arithmetic expression to evaluate, e.g. '(2 + 3) * 4'. Supports + - * / // % ** and parentheses only.";
      }
          ∷ record {
            name = "publish_as";
            field_type = string;
            default_value = some (text_default "");
            description =
                "Label to publish the result under. Publishing needs human approval, so with this set the specialist replies with a proposal and publishes nothing.";
          }
          ∷ record {
            name = "approved_by";
            field_type = string;
            default_value = some (text_default "");
            description =
                "Who approved the publication. Set this ONLY after a human approved, and re-send the request otherwise unchanged -- the specialist recomputes the value from `expression`, so it must be identical to the request that was approved.";
          }
          ∷ record {
            name = "decision_note";
            field_type = string;
            default_value = some (text_default "");
            description = "Optional feedback the approver attached, recorded for audit.";
          }
          ∷ []);
}

abbrev pub planner_request : Contract
planner_request = record {
  name = "PlannerRequest";
  fields =
      peer_request.fields
      ++ (record {
        name = "objective";
        field_type = string;
        default_value = none;
        description = "What the plan must achieve, stated as an outcome.";
      }
          ∷ record {
            name = "constraints";
            field_type = string;
            default_value = some (text_default "");
            description = "Optional limits the plan must respect (budget, order, risk).";
          }
          ∷ []);
}

-- `PAYLOADS`
abbrev pub payloads : Dict Contract
payloads =
    ("research", research_request) ∷ ("math", math_request) ∷ ("planner", planner_request) ∷ []
