-- ===== src/Schemas/Tables/Cases.antt =====
-- app/migrations/versions/20260817_0005_approval_cases.py.
use adk_a2a_gke.Prelude.{String, List, [], ◌∷◌}
use adk_a2a_gke.Schemas.Tables.{
  string, text, json, timestamp, primary_key, unique, one_of, Table, Operation, create_table,
  drop_table, create_index, drop_index, required, optional, defaulted, index, partial_index,
}

abbrev pub statuses : List String
statuses = "pending" ∷ "approved" ∷ "rejected" ∷ "executed" ∷ "failed" ∷ []

abbrev pub old_statuses : List String
old_statuses = "pending" ∷ "deciding" ∷ "approved" ∷ "rejected" ∷ "expired" ∷ []

unfoldable pub approval_cases : Table
approval_cases = record {
  columns =
      required "proposal_id" (string 32)
      ∷ required "case_id" (string 128)
      ∷ defaulted "agent" (string 128) ""
      ∷ defaulted "action" (string 128) ""
      ∷ defaulted "summary" text ""
      ∷ required "proposal" json
      ∷ required "status" (string 16)
      ∷ defaulted "session_id" (string 128) ""
      ∷ defaulted "decided_by" (string 256) ""
      ∷ defaulted "note" text ""
      ∷ optional "result" json
      ∷ defaulted "created_at" timestamp "now()"
      ∷ optional "decided_at" timestamp
      ∷ optional "executed_at" timestamp
      ∷ [];
  constraints =
      primary_key ("proposal_id" ∷ []) ∷ one_of "status" statuses "ck_approval_cases_status" ∷ [];
  indexes = [];
}

-- the table that `downgrade` creates again
unfoldable pub old_table : Table
old_table = record {
  columns =
      required "approval_id" (string 32)
      ∷ required "app_name" (string 128)
      ∷ required "user_id" (string 128)
      ∷ required "session_id" (string 128)
      ∷ required "invocation_id" (string 128)
      ∷ required "function_call_id" (string 128)
      ∷ required "call_name" (string 128)
      ∷ required "kind" (string 32)
      ∷ defaulted "tool_name" (string 128) ""
      ∷ defaulted "author" (string 128) ""
      ∷ defaulted "message" text ""
      ∷ required "args" json
      ∷ required "status" (string 16)
      ∷ optional "decision" json
      ∷ optional "decided_by" (string 256)
      ∷ defaulted "created_at" timestamp "now()"
      ∷ optional "decided_at" timestamp
      ∷ optional "deciding_since" timestamp
      ∷ optional "deciding_by" (string 256)
      ∷ optional "resumed_at" timestamp
      ∷ [];
  constraints =
      primary_key ("approval_id" ∷ [])
      ∷ unique ("session_id" ∷ "function_call_id" ∷ []) "uq_hitl_approvals_call"
      ∷ one_of "status" old_statuses "ck_hitl_approvals_status"
      ∷ [];
  indexes = [];
}

unfoldable pub upgrade_cases : List Operation
unfolding approval_cases
upgrade_cases =
    create_table "approval_cases" approval_cases
    ∷ create_index "approval_cases"
        (index "idx_approval_cases_status_created" ("status" ∷ "created_at" ∷ []))
    ∷ create_index "approval_cases"
        (index "idx_approval_cases_case" ("case_id" ∷ "created_at" ∷ []))
    ∷ create_index "approval_cases"
        (partial_index "idx_approval_cases_unexecuted" ("decided_at" ∷ []) "status = 'approved'")
    ∷ drop_index "idx_hitl_approvals_deciding" "hitl_approvals"
    ∷ drop_index "idx_hitl_approvals_user_pending" "hitl_approvals"
    ∷ drop_index "idx_hitl_approvals_status_created" "hitl_approvals"
    ∷ drop_table "hitl_approvals"
    ∷ []

unfoldable pub downgrade_cases : List Operation
unfolding old_table
downgrade_cases =
    create_table "hitl_approvals" old_table
    ∷ create_index "hitl_approvals"
        (index "idx_hitl_approvals_status_created" ("status" ∷ "created_at" ∷ []))
    ∷ create_index "hitl_approvals" (
        partial_index "idx_hitl_approvals_user_pending" ("user_id" ∷ "created_at" ∷ [])
          "status = 'pending'")
    ∷ create_index "hitl_approvals"
        (partial_index "idx_hitl_approvals_deciding" ("deciding_since" ∷ []) "status = 'deciding'")
    ∷ drop_index "idx_approval_cases_unexecuted" "approval_cases"
    ∷ drop_index "idx_approval_cases_case" "approval_cases"
    ∷ drop_index "idx_approval_cases_status_created" "approval_cases"
    ∷ drop_table "approval_cases"
    ∷ []
