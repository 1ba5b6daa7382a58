-- ===== src/Cluster/Database.antt =====
-- app/cluster/db.py: the configuration of the database and the engine that a process shares.
-- Python's `lower` and `upper` are parameters, as its `int` is.
pub mod Sharing
pub mod Closing
pub mod Settings
use mathlib.Core.Option
use adk_a2a_gke.Prelude.{
  String, Bool, true, false, Option, none, some, List, [], ◌∷◌, ◌==◌, not, ◌&&◌, if◌then◌else◌, ℤ,
  pos, Env, env_get, or_text,
}
use adk_a2a_gke.Text.{strip, starts_with}
use adk_a2a_gke.Cluster.Config.{Integers}

-- `str.lower` and `str.upper`
pub record Letters : Type 0 where
  pub lower : String → String
  pub upper : String → String

pub record DatabaseConfig : Type 0 where
  pub backend : String
  pub instance_uri : String
  pub iam_user : String
  pub name : String
  pub db_schema : String
  pub url : String
  pub ip_type : String
  pub pool_size : ℤ
  pub max_overflow : ℤ
  pub pool_recycle : ℤ

-- The `ValueError`s of `from_env`, with the settings that are missing.
pub data Refused : Type 0 where
  unknown_backend : String → Refused
  requires : String → List String → Refused

pub data Checked : Type 0 where
  accepted : DatabaseConfig → Checked
  refused : Refused → Checked

-- `backend in BACKENDS`
unfoldable pub known : String → Bool
known backend =
    if backend == "none" then true else if backend == "alloydb" then true else backend == "url"

-- The list comprehension for `missing`.
unfoldable pub missing : List (String × String) → List String
missing [] = []
missing ((name, value) ∷ settings) =
    let rest = missing settings in if value == "" then name ∷ rest else rest

-- The tests of `from_env` on its settings, in order.
unfoldable pub refusal : String → String → String → String → Option Refused
unfolding known missing
refusal backend instance_uri iam_user url =
    let lacking =
      missing (("ALLOYDB_INSTANCE_URI", instance_uri) ∷ ("ALLOYDB_IAM_USER", iam_user) ∷ []) in
    if not (known backend)
    then some (unknown_backend backend)
    else if backend == "alloydb"
    then elim lacking [ [] ↦ none | name ∷ names ↦ some (requires "alloydb" (name ∷ names)) ]
    else if (backend == "url") && (url == "")
    then some (requires "url" ("DB_URL" ∷ []))
    else none

unfoldable pub checked : Option Refused → DatabaseConfig → Checked
checked none c = accepted c
checked (some e) c = refused e

module _ (z : Integers) (letters : Letters) where
  unfoldable pub int_env : Option String → ℤ → ℤ
  unfolding strip
  int_env raw default =
      let text = strip (Option.get_or raw "") in
      if text == "" then default else Option.get_or (z.int text) default

  unfoldable pub backend_of : Env → String
  unfolding strip
  backend_of env = or_text (letters.lower (strip (env_get env "DB_BACKEND" "none"))) "none"

  unfoldable pub settings : Env → String → DatabaseConfig
  unfolding int_env strip backend_of
  settings env default_schema = record {
    backend = backend_of env;
    instance_uri = strip (env_get env "ALLOYDB_INSTANCE_URI" "");
    iam_user = strip (env_get env "ALLOYDB_IAM_USER" "");
    name = or_text (strip (env_get env "DB_NAME" "agents")) "agents";
    db_schema = strip (env_get env "DB_SCHEMA" default_schema);
    url = strip (env_get env "DB_URL" "");
    ip_type = or_text (letters.upper (strip (env_get env "ALLOYDB_IP_TYPE" "PRIVATE"))) "PRIVATE";
    pool_size = int_env (env "DB_POOL_SIZE") (pos 5);
    max_overflow = int_env (env "DB_MAX_OVERFLOW") (pos 2);
    pool_recycle = int_env (env "DB_POOL_RECYCLE") (pos 1800);
  }

  unfoldable pub from_env : Env → String → Checked
  unfolding settings refusal checked
  from_env env default_schema =
      let c = settings env default_schema in
      checked (refusal c.backend c.instance_uri c.iam_user c.url) c

  -- `build_database`
  unfoldable pub build_database : Env → Checked
  unfolding from_env strip
  build_database env =
      from_env env (or_text (strip (env_get env "AGENT_NAME" "orchestrator")) "orchestrator")

unfoldable pub enabled : DatabaseConfig → Bool
enabled c = not (c.backend == "none")

unfoldable pub wants_search_path : DatabaseConfig → Bool
unfolding starts_with
wants_search_path c =
    if c.db_schema == ""
    then false
    else if c.backend == "alloydb"
    then true
    else starts_with "postgresql" c.url

unfoldable pub server_settings : DatabaseConfig → Option String
unfolding wants_search_path
server_settings c = if wants_search_path c then some c.db_schema else none

pub record Pool : Type 0 where
  pub pool_size : ℤ
  pub max_overflow : ℤ
  pub pool_recycle : ℤ
  pub pool_pre_ping : Bool

unfoldable pub pool_kwargs : DatabaseConfig → Pool
pool_kwargs c = record {
  pool_size = c.pool_size;
  max_overflow = c.max_overflow;
  pool_recycle = c.pool_recycle;
  pool_pre_ping = true;
}

-- What `create_async_engine` is called with: the URL, the connector's arguments where AlloyDB is
-- reached through one, the `search_path`, and the pool.
pub record Connector : Type 0 where
  pub ip_type : String
  pub instance_uri : String
  pub user : String
  pub db : String
  pub enable_iam_auth : Bool

pub record Engine : Type 0 where
  pub url : String
  pub connector : Option Connector
  pub search_path : Option String
  pub pool : Option Pool

unfoldable pub build_alloydb_engine : DatabaseConfig → Engine
unfolding server_settings pool_kwargs
build_alloydb_engine c = record {
  url = "postgresql+asyncpg://";
  connector = some (record {
    ip_type = c.ip_type;
    instance_uri = c.instance_uri;
    user = c.iam_user;
    db = c.name;
    enable_iam_auth = true;
  });
  search_path = server_settings c;
  pool = some (pool_kwargs c);
}

unfoldable pub build_url_engine : DatabaseConfig → Engine
unfolding server_settings pool_kwargs starts_with
build_url_engine c =
    if starts_with "sqlite" c.url
    then record { url = c.url; connector = none; search_path = none; pool = none }
    else record {
      url = c.url;
      connector = none;
      search_path = server_settings c;
      pool = some (pool_kwargs c);
    }

unfoldable pub build_engine : DatabaseConfig → Engine
unfolding build_alloydb_engine build_url_engine
build_engine c = if c.backend == "alloydb" then build_alloydb_engine c else build_url_engine c
