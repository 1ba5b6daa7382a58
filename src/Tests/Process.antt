-- ===== src/Tests/Process.antt =====
-- The start of a process, its logging and the administration of its database, at concrete
-- environments.
use adk_a2a_gke.Prelude.{
  ℕ, ◌≡◌, refl, false, ◌==◌, if◌then◌else◌, Env, none, some, List, [], ◌∷◌, All, Attempt, returned,
  raised, ◌++◌,
}
use adk_a2a_gke.Cluster.Database.{settings}
use adk_a2a_gke.Schemas.Grants.{Grant, usage, select, default_select, grant_readers}
use adk_a2a_gke.Schemas.Granted.{IsFit, grant_readers_bounded}
use adk_a2a_gke.Schemas.Tables.Cases.{downgrade_cases}
use adk_a2a_gke.Schemas.Tables.Effects.{stored, Objects, effect, run}
use adk_a2a_gke.Schemas.Tables.Undone.{seen, to_hitl, upgrades, downgrades, migrations_undone}
use adk_a2a_gke.Shared.Catalog.{Gemini}
use adk_a2a_gke.Shared.Logging.{Logs, other, Platform}
use adk_a2a_gke.Shared.Telemetry.{otlp, cloud, proxy, real, Otel, Tracing}
use adk_a2a_gke.Shared.Telemetry.Settled.{
  observe, adk_setup, IsSettled, happen_all, observability_settles,
}
use adk_a2a_gke.Wiring.Services.{in_memory, on_database}
use adk_a2a_gke.Wiring.Agent.{
  AgentSpec, Models, restate_structured_results, own, LlmAgent, Process, registry, provide_config,
  provide_resolver,
}
use adk_a2a_gke.Tests.Reading.{integers, letters}

-- an environment with a database behind a URL
abbrev env : Env
env name =
    if name == "DB_BACKEND"
    then some "url"
    else if name == "DB_URL"
    then some "postgresql://db"
    else if name == "DB_READERS"
    then some "ann@example.com, "
    else if name == "DB_READER_SCHEMAS"
    then some "math"
    else none

abbrev granted : List Grant
granted =
    usage "math" "ann@example.com"
    ∷ select "math" "ann@example.com"
    ∷ default_select "math" "ann@example.com"
    ∷ []

grant_readers_bounded_example : All IsFit granted
unfolding grant_readers
grant_readers_bounded_example = grant_readers_bounded integers letters env granted refl

abbrev quiet : Env
quiet name =
    if name == "AGENT_NAME"
    then some "math"
    else if name == "DB_BACKEND"
    then some "url"
    else if name == "DB_URL"
    then some "postgresql://db"
    else if name == "SESSION_BACKEND"
    then some "alloydb"
    else none

abbrev gemini : Gemini
gemini = record { model = "gemini-2.5-flash"; attempts = 3; api_client = none }

abbrev models : Models
models = record { fast = gemini; balanced = gemini; capable = gemini }

abbrev math : AgentSpec ℕ
math = record {
  name = "math";
  description = "arithmetic";
  instruction = "calculate";
  tier = "balanced";
  tools = 7 ∷ [];
  peers = [];
}

abbrev root : LlmAgent ℕ ℕ
root = record {
  name = "math";
  model = gemini;
  description = "arithmetic";
  instruction = "calculate";
  tools = own 7 ∷ [];
  after_agent_callback = restate_structured_results;
}

started : Process ℕ ℕ
started = record {
  resolver =
      provide_resolver [] 0 "/card" (provide_config integers quiet (registry (math ∷ [])) "math");
  session_service = on_database (settings integers letters quiet "math");
  memory_service = in_memory;
  artifact_service = none;
  task_store = in_memory;
  case_store = on_database (settings integers letters quiet "math");
  database = settings integers letters quiet "math";
  root_agent = root;
}

abbrev platform : Platform
platform = record {
  logging_knows = λ s. s == "INFO";
  loguru_knows = λ s. s == "INFO";
  is_tty = false;
}

abbrev before : Logs
before = record {
  configured = false;
  root = other (1 ∷ 2 ∷ []);
  root_level = "WARNING";
  loggers = ("uvicorn", record { handlers = 3 ∷ []; propagate = false }) ∷ [];
  patcher = none;
  sinks = [];
}

-- a set-up that installs a provider where there is none
abbrev otel : Otel
otel = record {
  set_providers = λ kind service p. elim p [ proxy ↦ real kind service | real k s ↦ real k s ];
  default_credentials = returned tt;
}

abbrev untraced : Tracing
untraced = record {
  configured = false;
  propagators = false;
  http = false;
  provider = real otlp "adk";
}

observability_settles_example :
    IsSettled letters platform otel quiet
      (real otlp "adk")
      (happen_all letters platform otel quiet
        (observe "p" "" none none ∷ adk_setup cloud "adk" ∷ observe "p" "math" none none ∷ [])
        (before, untraced)).1
unfolding happen_all
observability_settles_example =
    observability_settles letters platform otel quiet (λ kind service k s. refl) "p" "" none none
      (adk_setup cloud "adk" ∷ observe "p" "math" none none ∷ []) before untraced refl refl refl

-- a database that is its objects, one table
abbrev notes : Objects
notes = record {
  relations = λ t.
      if t == "notes"
      then some (
          stored (record {
            table = record { columns = []; constraints = []; indexes = [] };
            rows = [];
            triggers = [];
            referrers = [];
          }))
      else none;
  functions = λ f. none;
}

seen-same : (r : Attempt Objects) → seen (λ o. o) r ≡ r
seen-same (returned o) = refl
seen-same (raised e) = refl

migrations_undone_example :
    (seen (λ o. o) (run effect (upgrades ++ downgrade_cases) notes)
      ≡ seen (λ o. o) (run effect to_hitl notes))
    × (seen (λ o. o) (run effect (upgrades ++ downgrades) notes) ≡ returned notes)
migrations_undone_example =
    migrations_undone (λ o. o) effect (λ op o. seen-same (effect op o)) notes
      (
        refl,
        (
          refl,
          (
            refl,
            (
              refl,
              (
                refl,
                (
                  refl,
                  (
                    refl,
                    (
                      refl,
                      (
                        refl,
                        (refl, (refl, (refl, (refl, (refl, (refl, (refl, (refl, (refl, tt))))))))),
                      ),
                    ),
                  ),
                ),
              ),
            ),
          ),
        ),
      )
      refl
