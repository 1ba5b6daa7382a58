-- ===== src/Schemas/Tables/Tasks.antt =====
-- app/migrations/versions/20260803_0002_a2a_task_store.py.
use adk_a2a_gke.Prelude.{String, List, [], ◌∷◌}
use adk_a2a_gke.Schemas.Tables.{
  string, generic_json, timestamp, primary_key, Table, create_touch_function, create_trigger,
  drop_trigger_if_exists, drop_function_if_exists, Operation, create_table, drop_table,
  create_index, drop_index, execute, required, optional, defaulted, index,
}

abbrev pub touch_function : String
touch_function = "tasks_touch_updated_at"

abbrev pub tasks : Table
tasks = record {
  columns =
      required "id" (string 36)
      ∷ required "context_id" (string 36)
      ∷ required "kind" (string 16)
      ∷ required "status" generic_json
      ∷ optional "artifacts" generic_json
      ∷ optional "history" generic_json
      ∷ optional "metadata" generic_json
      ∷ defaulted "created_at" timestamp "now()"
      ∷ defaulted "updated_at" timestamp "now()"
      ∷ [];
  constraints = primary_key ("id" ∷ []) ∷ [];
  indexes = [];
}

unfoldable pub upgrade_tasks : List Operation
upgrade_tasks =
    create_table "tasks" tasks
    ∷ create_index "tasks" (index "idx_tasks_context_id" ("context_id" ∷ []))
    ∷ create_index "tasks" (index "idx_tasks_updated_at" ("updated_at" ∷ []))
    ∷ execute (create_touch_function touch_function)
    ∷ execute (create_trigger "tasks_set_updated_at" "tasks" touch_function)
    ∷ []

unfoldable pub downgrade_tasks : List Operation
downgrade_tasks =
    execute (drop_trigger_if_exists "tasks_set_updated_at" "tasks")
    ∷ execute (drop_function_if_exists touch_function)
    ∷ drop_index "idx_tasks_updated_at" "tasks"
    ∷ drop_index "idx_tasks_context_id" "tasks"
    ∷ drop_table "tasks"
    ∷ []
