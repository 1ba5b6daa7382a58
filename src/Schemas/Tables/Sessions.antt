-- ===== src/Schemas/Tables/Sessions.antt =====
-- app/migrations/versions/20260803_0001_adk_session_schema_v1.py.
use adk_a2a_gke.Prelude.{List, [], ◌∷◌}
use adk_a2a_gke.Schemas.Tables.{
  string, jsonb, datetime, primary_key, foreign_key, Table, insert_row, Operation, create_table,
  drop_table, create_index, drop_index, execute, required, optional, index,
}

abbrev pub metadata : Table
metadata = record {
  columns = required "key" (string 128) ∷ required "value" (string 256) ∷ [];
  constraints = primary_key ("key" ∷ []) ∷ [];
  indexes = [];
}

abbrev pub sessions : Table
sessions = record {
  columns =
      required "app_name" (string 128)
      ∷ required "user_id" (string 128)
      ∷ required "id" (string 128)
      ∷ required "state" jsonb
      ∷ required "create_time" datetime
      ∷ required "update_time" datetime
      ∷ [];
  constraints = primary_key ("app_name" ∷ "user_id" ∷ "id" ∷ []) ∷ [];
  indexes = [];
}

abbrev pub events : Table
events = record {
  columns =
      required "id" (string 128)
      ∷ required "app_name" (string 128)
      ∷ required "user_id" (string 128)
      ∷ required "session_id" (string 128)
      ∷ required "invocation_id" (string 256)
      ∷ required "timestamp" datetime
      ∷ optional "event_data" jsonb
      ∷ [];
  constraints =
      primary_key ("id" ∷ "app_name" ∷ "user_id" ∷ "session_id" ∷ [])
      ∷ foreign_key ("app_name" ∷ "user_id" ∷ "session_id" ∷ []) "sessions"
          ("app_name" ∷ "user_id" ∷ "id" ∷ []) "CASCADE"
      ∷ [];
  indexes = [];
}

abbrev pub app_states : Table
app_states = record {
  columns =
      required "app_name" (string 128)
      ∷ required "state" jsonb
      ∷ required "update_time" datetime
      ∷ [];
  constraints = primary_key ("app_name" ∷ []) ∷ [];
  indexes = [];
}

abbrev pub user_states : Table
user_states = record {
  columns =
      required "app_name" (string 128)
      ∷ required "user_id" (string 128)
      ∷ required "state" jsonb
      ∷ required "update_time" datetime
      ∷ [];
  constraints = primary_key ("app_name" ∷ "user_id" ∷ []) ∷ [];
  indexes = [];
}

unfoldable pub upgrade_sessions : List Operation
upgrade_sessions =
    create_table "adk_internal_metadata" metadata
    ∷ create_table "sessions" sessions
    ∷ create_table "events" events
    ∷ create_index "events" (
        index "idx_events_app_user_session_ts"
          ("app_name" ∷ "user_id" ∷ "session_id" ∷ "timestamp DESC" ∷ []))
    ∷ create_index "sessions" (index "idx_sessions_update_time" ("update_time" ∷ []))
    ∷ create_table "app_states" app_states
    ∷ create_table "user_states" user_states
    ∷ execute (insert_row "adk_internal_metadata" "schema_version" "1")
    ∷ []

unfoldable pub downgrade_sessions : List Operation
downgrade_sessions =
    drop_table "user_states"
    ∷ drop_table "app_states"
    ∷ drop_index "idx_sessions_update_time" "sessions"
    ∷ drop_index "idx_events_app_user_session_ts" "events"
    ∷ drop_table "events"
    ∷ drop_table "sessions"
    ∷ drop_table "adk_internal_metadata"
    ∷ []
