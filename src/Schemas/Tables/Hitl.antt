-- ===== src/Schemas/Tables/Hitl.antt =====
-- app/migrations/versions/20260804_0004_hitl_approvals.py.
use adk_a2a_gke.Prelude.{String, List, [], ◌∷◌}
use adk_a2a_gke.Schemas.Tables.{
  string, text, json, timestamp, primary_key, unique, one_of, Table, Operation, create_table,
  drop_table, create_index, drop_index, required, optional, defaulted, index, partial_index,
}

abbrev pub hitl_statuses : List String
hitl_statuses = "pending" ∷ "deciding" ∷ "approved" ∷ "rejected" ∷ "expired" ∷ []

unfoldable pub hitl_approvals : Table
hitl_approvals = record {
  columns =
      required "approval_id" (string 32)
      ∷ required "app_name" (string 128)
      ∷ required "user_id" (string 128)
      ∷ required "session_id" (string 128)
      ∷ required "invocation_id" (string 128)
      ∷ required "function_call_id" (string 128)
      ∷ required "call_name" (string 128)
      ∷ required "kind" (string 32)
      ∷ defaulted "tool_name" (string 128) ""
      ∷ defaulted "author" (string 128) ""
      ∷ defaulted "message" text ""
      ∷ required "args" json
      ∷ required "status" (string 16)
      ∷ optional "decision" json
      ∷ optional "decided_by" (string 256)
      ∷ defaulted "created_at" timestamp "now()"
      ∷ optional "decided_at" timestamp
      ∷ optional "deciding_since" timestamp
      ∷ optional "deciding_by" (string 256)
      ∷ optional "resumed_at" timestamp
      ∷ [];
  constraints =
      primary_key ("approval_id" ∷ [])
      ∷ unique ("session_id" ∷ "function_call_id" ∷ []) "uq_hitl_approvals_call"
      ∷ one_of "status" hitl_statuses "ck_hitl_approvals_status"
      ∷ [];
  indexes = [];
}

unfoldable pub upgrade_hitl : List Operation
unfolding hitl_approvals
upgrade_hitl =
    create_table "hitl_approvals" hitl_approvals
    ∷ create_index "hitl_approvals"
        (index "idx_hitl_approvals_status_created" ("status" ∷ "created_at" ∷ []))
    ∷ create_index "hitl_approvals" (
        partial_index "idx_hitl_approvals_user_pending" ("user_id" ∷ "created_at" ∷ [])
          "status = 'pending'")
    ∷ create_index "hitl_approvals"
        (partial_index "idx_hitl_approvals_deciding" ("deciding_since" ∷ []) "status = 'deciding'")
    ∷ []

unfoldable pub downgrade_hitl : List Operation
downgrade_hitl =
    drop_index "idx_hitl_approvals_deciding" "hitl_approvals"
    ∷ drop_index "idx_hitl_approvals_user_pending" "hitl_approvals"
    ∷ drop_index "idx_hitl_approvals_status_created" "hitl_approvals"
    ∷ drop_table "hitl_approvals"
    ∷ []
