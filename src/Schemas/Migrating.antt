-- ===== src/Schemas/Migrating.antt =====
-- app/migrations/env.py: which schema a run of the migrations is for. Alembic is a parameter: the
-- steps that it is asked for are listed, in order.
use mathlib.Core.Option
use adk_a2a_gke.Prelude.{
  String, not, ◌==◌, if◌then◌else◌, List, [], ◌∷◌, Env, env_get, or_text, Option, none, some,
  Attempt, returned, raised, value_error, ◌>>=◌,
}
use adk_a2a_gke.Text.{strip}
use adk_a2a_gke.Cluster.Config.{Integers}
use adk_a2a_gke.Cluster.Database.{Letters, DatabaseConfig, Checked, accepted, refused, from_env}
use adk_a2a_gke.Schemas.Identifiers.{is_identifier}

pub data Step : Type 0 where
  connect : DatabaseConfig → Step
  create_schema : String → Step
  configure : Option String → String → Step
  run_migrations : Step

module _ (z : Integers) (letters : Letters) (x_schema : Option String) (env : Env) where
  -- `-x schema=...`, then `DB_SCHEMA`, then `AGENT_NAME`
  unfoldable pub chosen_schema : String
  unfolding strip
  chosen_schema = strip (
      or_text (Option.get_or x_schema "")
        (or_text (env_get env "DB_SCHEMA" "") (env_get env "AGENT_NAME" "")))

  unfoldable pub resolve_schema : Attempt String
  unfolding chosen_schema is_identifier
  resolve_schema =
      if chosen_schema == ""
      then raised value_error
      else if not (is_identifier chosen_schema)
      then raised value_error
      else returned chosen_schema

  abbrev pub pinned : String → Checked → Attempt DatabaseConfig
  pinned schema (refused e) = raised value_error
  pinned schema (accepted c) = returned (record c { db_schema = schema })

  unfoldable pub resolve_config : String → Attempt DatabaseConfig
  unfolding from_env
  resolve_config schema = pinned schema (from_env z letters env schema)

  -- `url or None`
  abbrev pub url_or_none : String → Option String
  url_or_none url = if url == "" then none else some url

  unfoldable pub run_migrations_offline : Attempt (List Step)
  unfolding resolve_schema resolve_config
  run_migrations_offline = resolve_schema >>= λ schema. resolve_config schema >>= λ c.
      (if not (c.backend == "url")
        then raised value_error
        else returned (configure (url_or_none c.url) schema ∷ run_migrations ∷ []))

  unfoldable pub run_migrations_online : Attempt (List Step)
  unfolding resolve_schema resolve_config
  run_migrations_online = resolve_schema >>= λ schema. resolve_config schema >>= λ c.
      returned (connect c ∷ create_schema schema ∷ configure none schema ∷ run_migrations ∷ [])
