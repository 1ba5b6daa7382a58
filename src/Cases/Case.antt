-- ===== src/Cases/Case.antt =====
-- app/cluster/cases.py: the states of a case, the outcomes of a decision and `ApprovalCase`. The
-- five constants for the states are constructors; `text` is how each is spelled. A moment is a
-- number of microseconds; `isoformat` is the standard library's, and a parameter.
use adk_a2a_gke.Prelude.{ℕ, String, Bool, true, false, Option, none, some, if◌then◌else◌}
use adk_a2a_gke.Json.{Json, null, str, obj, Fields, end, field}

pub data Status : Type 0 where
  pending approved rejected executed failed : Status

unfoldable pub text : Status → String
text pending = "pending"
text approved = "approved"
text rejected = "rejected"
text executed = "executed"
text failed = "failed"

-- `case.status == PENDING`
abbrev pub is_pending : Status → Bool
is_pending pending = true
is_pending _ = false

-- `case.status in TERMINAL`
abbrev pub is_terminal : Status → Bool
is_terminal pending = false
is_terminal approved = false
is_terminal _ = true

pub data DecisionOutcome : Type 0 where
  recorded not_found already_decided : DecisionOutcome

pub record ApprovalCase (N : Type 0) : Type 0 where
  pub case_id : String
  pub proposal_id : String
  pub agent : String
  pub action : String
  pub summary : String
  pub proposal : Fields N
  pub status : Status
  pub session_id : String
  pub decided_by : String
  pub note : String
  pub result : Option (Fields N)
  pub created_at : ℕ
  pub decided_at : Option ℕ
  pub executed_at : Option ℕ

module _ {N : Type 0} where
  -- the inner function `stamp` of `public`
  stamp : (ℕ → String) → Option ℕ → Json N
  stamp isoformat none = null
  stamp isoformat (some t) = str (isoformat t)

  result_view : Option (Fields N) → Json N
  result_view none = null
  result_view (some fs) = obj fs

  unfoldable pub public : (ℕ → String) → ApprovalCase N → Fields N
  unfolding stamp result_view text
  public isoformat c = field "proposal_id" (str c.proposal_id) (
      field "case_id" (str c.case_id) (
        field "agent" (str c.agent) (
          field "action" (str c.action) (
            field "summary" (str c.summary) (
              field "proposal" (obj c.proposal) (
                field "status" (str (text c.status)) (
                  field "session_id" (str c.session_id) (
                    field "decided_by" (str c.decided_by) (
                      field "note" (str c.note) (
                        field "result" (result_view c.result) (
                          field "created_at" (stamp isoformat (some c.created_at)) (
                            field "decided_at" (stamp isoformat c.decided_at)
                              (field "executed_at" (stamp isoformat c.executed_at) end)))))))))))))

  -- The assignments to the fields of a case in `decide`.
  unfoldable pub decided : Bool → String → String → ℕ → ApprovalCase N → ApprovalCase N
  decided yes_ by note now c = record c {
    status = if yes_ then approved else rejected;
    decided_by = by;
    note = note;
    decided_at = some now;
  }

  -- The assignments to the fields of a case in `record_execution`.
  unfoldable pub closed : Bool → Fields N → ℕ → ApprovalCase N → ApprovalCase N
  closed succeeded result now c = record c {
    status = if succeeded then executed else failed;
    result = some result;
    executed_at = some now;
  }
