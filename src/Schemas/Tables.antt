-- ===== src/Schemas/Tables.antt =====
-- What the migrations of app/migrations/versions do to a schema: the calls on Alembic in their
-- order.
pub mod Hitl
pub mod Cases
pub mod Sessions
pub mod Tasks
pub mod Roles
pub mod Effects
pub mod Undone
use adk_a2a_gke.Prelude.{ℕ, String, Bool, true, false, Option, none, some, List, [], ◌∷◌}
use adk_a2a_gke.Text.{concat}

-- `json` is `_json_type()`, `jsonb` `postgresql.JSONB()` and `generic_json` `sa.JSON()`;
-- `timestamp` has a time zone, and `datetime` has none
pub data ColumnType : Type 0 where
  string : ℕ → ColumnType
  text json jsonb generic_json timestamp datetime : ColumnType

pub record Column : Type 0 where
  pub name : String
  pub column_type : ColumnType
  pub nullable : Bool
  pub server_default : Option String

pub data Constraint : Type 0 where
  primary_key : List String → Constraint
  unique : List String → String → Constraint
  one_of : String → List String → String → Constraint
  -- columns, the table and its columns that they refer to, and `ondelete`
  foreign_key : List String → String → List String → String → Constraint

pub record Index : Type 0 where
  pub name : String
  pub columns : List String
  pub only : Option String

pub record Table : Type 0 where
  pub columns : List Column
  pub constraints : List Constraint
  pub indexes : List Index

-- the texts that a revision gives to `op.execute`
pub data Statement : Type 0 where
  insert_row : String → String → String → Statement
  create_touch_function : String → Statement
  create_trigger : String → String → String → Statement
  drop_trigger_if_exists : String → String → Statement
  drop_function_if_exists : String → Statement

-- the calls on Alembic's `op` in a revision
pub data Operation : Type 0 where
  create_table : String → Table → Operation
  drop_table : String → Operation
  create_index : String → Index → Operation
  drop_index : String → String → Operation
  execute : Statement → Operation

abbrev pub required : String → ColumnType → Column
required name t = record { name = name; column_type = t; nullable = false; server_default = none }

abbrev pub optional : String → ColumnType → Column
optional name t = record { name = name; column_type = t; nullable = true; server_default = none }

abbrev pub defaulted : String → ColumnType → String → Column
defaulted name t default = record {
  name = name;
  column_type = t;
  nullable = false;
  server_default = some default;
}

abbrev pub index : String → List String → Index
index name columns = record { name = name; columns = columns; only = none }

abbrev pub partial_index : String → List String → String → Index
partial_index name columns only = record { name = name; columns = columns; only = some only }

-- The text of a statement, without the line breaks and blanks that SQL skips. A row is one of a
-- table with the columns `key` and `value`.
unfoldable pub sql : Statement → String
unfolding concat
sql (insert_row table key value) =
    concat ("INSERT INTO " ∷ table ∷ " (key, value) VALUES ('" ∷ key ∷ "', '" ∷ value ∷ "')" ∷ [])
sql (create_touch_function name) = concat (
    "CREATE FUNCTION " ∷ name
    ∷ "() RETURNS trigger AS $$ BEGIN NEW.updated_at = now(); RETURN NEW; END; $$ LANGUAGE plpgsql"
    ∷ [])
sql (create_trigger name table function) = concat (
    "CREATE TRIGGER " ∷ name ∷ " BEFORE UPDATE ON " ∷ table ∷ " FOR EACH ROW EXECUTE FUNCTION "
    ∷ function ∷ "()" ∷ [])
sql (drop_trigger_if_exists name table) =
    concat ("DROP TRIGGER IF EXISTS " ∷ name ∷ " ON " ∷ table ∷ [])
sql (drop_function_if_exists name) = concat ("DROP FUNCTION IF EXISTS " ∷ name ∷ "()" ∷ [])
