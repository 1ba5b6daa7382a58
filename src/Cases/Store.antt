-- ===== src/Cases/Store.antt =====
-- app/cluster/cases.py, `CaseStore`: the abstract class as a record of operations on a state `S`,
-- with what they promise. `InMemoryCaseStore` fills it (Cases/Memory.antt), and the endpoints
-- (Serving.antt) take it as a parameter. `DatabaseCaseStore`, whose calls may raise, is in
-- Cases/Table.antt.
use mathlib.Core.Option
use adk_a2a_gke.Prelude.{
  ℕ, String, ◌≡◌, Bool, Option, none, some, List, ◌==◌, if◌then◌else◌, is_none, or_default,
}
use adk_a2a_gke.Json.{Fields}
use adk_a2a_gke.Cases.Case.{
  is_pending, DecisionOutcome, recorded, not_found, already_decided, ApprovalCase, decided, closed,
}

module _ {N : Type 0} where
  -- What a decision makes of the case that it finds: only a pending one is written.
  unfoldable pub decide_case : Bool → String → String → ℕ → ApprovalCase N → ApprovalCase N
  decide_case yes_ by note now c = if is_pending c.status then decided yes_ by note now c else c

  -- What a decision answers, by what it finds.
  unfoldable pub decide_reply :
      Bool
      → String
      → String
      → ℕ
      → Option (ApprovalCase N)
      → DecisionOutcome × Option (ApprovalCase N)
  decide_reply yes_ by note now none = (not_found, none)
  decide_reply yes_ by note now (some c) =
      if is_pending c.status
      then (recorded, some (decided yes_ by note now c))
      else (already_decided, some c)

  -- A case as a proposal opens it: nothing is decided or executed yet.
  pub record IsFresh (c : ApprovalCase N) : Type 0 where
    pub result : c.result ≡ none
    pub decided_by : c.decided_by ≡ ""
    pub decided_at : c.decided_at ≡ none
    pub executed_at : c.executed_at ≡ none

pub record CaseStore (N S : Type 0) : Type 0 where
  pub open_case : ApprovalCase N → S → Bool × S
  pub get : String → S → Option (ApprovalCase N)
  pub list_by_status : String → S → List (ApprovalCase N)
  pub decide :
      String → Bool → String → String → ℕ → S → (DecisionOutcome × Option (ApprovalCase N)) × S
  pub record_execution : String → Bool → Fields N → ℕ → S → Option (ApprovalCase N) × S

-- The contract: each operation by its answer and by what `get` shows afterwards at every id.
pub record IsCaseStore {N S : Type 0} (store : CaseStore N S) : Type 0 where
  pub open_reply :
      (c : ApprovalCase N) (s : S) → (store.open_case c s).0 ≡ is_none (store.get c.proposal_id s)
  pub get-open :
      (j : String) (c : ApprovalCase N) (s : S)
      → IsFresh c
      → store.get j (store.open_case c s).1
        ≡ (if c.proposal_id == j then some (or_default (store.get j s) c) else store.get j s)
  pub decide_answer :
      (k : String) (yes_ : Bool) (by note : String) (now : ℕ) (s : S)
      → (store.decide k yes_ by note now s).0 ≡ decide_reply yes_ by note now (store.get k s)
  pub get-decide :
      (j k : String) (yes_ : Bool) (by note : String) (now : ℕ) (s : S)
      → store.get j (store.decide k yes_ by note now s).1 ≡ (
          if k == j
          then Option.map (decide_case yes_ by note now) (store.get j s)
          else store.get j s)
  pub record_answer :
      (k : String) (done : Bool) (result : Fields N) (now : ℕ) (s : S)
      → (store.record_execution k done result now s).0
        ≡ Option.map (closed done result now) (store.get k s)
  pub get-record :
      (j k : String) (done : Bool) (result : Fields N) (now : ℕ) (s : S)
      → store.get j (store.record_execution k done result now s).1
        ≡ (if k == j then Option.map (closed done result now) (store.get j s) else store.get j s)
