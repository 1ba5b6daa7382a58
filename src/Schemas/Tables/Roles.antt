-- ===== src/Schemas/Tables/Roles.antt =====
-- app/migrations/versions/20260803_0003_grant_agent_role.py. How the dialect quotes an identifier is
-- a parameter, and `version_table_schema` is what Alembic was configured with.
pub mod Revoked
use Prim.Native.Char.{Char, code}
use adk_a2a_gke.Prelude.{
  String, Bool, false, ◌&&◌, ◌||◌, not, ◌==◌, eqb, leb, ltb, if◌then◌else◌, Env, env_get, Option,
  none, some, or_text, List, [], ◌∷◌, Attempt, returned, raised, value_error, ◌>>=◌,
}
use adk_a2a_gke.Text.{strip, concat}
use adk_a2a_gke.Schemas.Identifiers.{all_parts, utf8_length}

-- `[A-Za-z0-9._@-]`
abbrev pub is_role_part : Char → Bool
is_role_part c =
    (leb 65 (code c) && leb (code c) 90)
    || (leb 97 (code c) && leb (code c) 122)
    || (leb 48 (code c) && leb (code c) 57)
    || eqb (code c) 46
    || eqb (code c) 95
    || eqb (code c) 64
    || eqb (code c) 45

-- `_ROLE_RE`
unfoldable pub is_role : String → Bool
unfolding all_parts
is_role String.[] = false
is_role (String.◌∷◌ c s) = is_role_part c && all_parts is_role_part s

unfoldable pub resolve_role : Env → Attempt String
unfolding strip is_role utf8_length
resolve_role env =
    let role = strip (env_get env "DB_AGENT_ROLE" "") in
    if role == ""
    then returned ""
    else if not (is_role role)
    then raised value_error
    else if ltb 63 (utf8_length role)
    then raised value_error
    else returned role

-- `version_table_schema or "public"`
unfoldable pub schema_name : Option String → String
schema_name none = "public"
schema_name (some schema) = or_text schema "public"

-- What is granted or revoked: the use of the schema, the privileges on its tables, and those on the
-- tables to come.
pub data Privilege : Type 0 where
  on_schema on_tables by_default : Privilege

-- A statement for a schema and a role.
pub data RoleStatement : Type 0 where
  grant revoke : Privilege → String → String → RoleStatement

abbrev pub table_privileges : String
table_privileges = "SELECT, INSERT, UPDATE, DELETE"

unfoldable pub role_text : (String → String) → RoleStatement → String
unfolding concat
role_text quote (grant on_schema schema role) =
    concat ("GRANT USAGE ON SCHEMA " ∷ quote schema ∷ " TO " ∷ quote role ∷ [])
role_text quote (grant on_tables schema role) = concat (
    "GRANT "
    ∷ table_privileges
    ∷ " ON ALL TABLES IN SCHEMA "
    ∷ quote schema
    ∷ " TO "
    ∷ quote role
    ∷ [])
role_text quote (grant by_default schema role) = concat (
    "ALTER DEFAULT PRIVILEGES IN SCHEMA "
    ∷ quote schema
    ∷ " GRANT "
    ∷ table_privileges
    ∷ " ON TABLES TO "
    ∷ quote role
    ∷ [])
role_text quote (revoke on_schema schema role) =
    concat ("REVOKE USAGE ON SCHEMA " ∷ quote schema ∷ " FROM " ∷ quote role ∷ [])
role_text quote (revoke on_tables schema role) = concat (
    "REVOKE "
    ∷ table_privileges
    ∷ " ON ALL TABLES IN SCHEMA "
    ∷ quote schema
    ∷ " FROM "
    ∷ quote role
    ∷ [])
role_text quote (revoke by_default schema role) = concat (
    "ALTER DEFAULT PRIVILEGES IN SCHEMA "
    ∷ quote schema
    ∷ " REVOKE "
    ∷ table_privileges
    ∷ " ON TABLES FROM "
    ∷ quote role
    ∷ [])

-- Nothing is executed without a role, or on another dialect.
abbrev pub for_role : String → String → List RoleStatement → List RoleStatement
for_role role dialect statements =
    if role == "" then [] else if not (dialect == "postgresql") then [] else statements

unfoldable pub upgrade_roles : Env → String → Option String → Attempt (List RoleStatement)
unfolding resolve_role schema_name
upgrade_roles env dialect configured = resolve_role env >>= λ role.
    let schema = schema_name configured in
    returned (
      for_role role dialect (
        grant on_schema schema role
        ∷ grant on_tables schema role
        ∷ grant by_default schema role
        ∷ []))

unfoldable pub downgrade_roles : Env → String → Option String → Attempt (List RoleStatement)
unfolding resolve_role schema_name
downgrade_roles env dialect configured = resolve_role env >>= λ role.
    let schema = schema_name configured in
    returned (
      for_role role dialect (
        revoke by_default schema role
        ∷ revoke on_tables schema role
        ∷ revoke on_schema schema role
        ∷ []))
