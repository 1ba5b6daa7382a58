-- ===== src/Lib.antt =====
-- A2A agents on GKE: a verification library.
--
-- The program runs ADK agents as services that delegate to each other. An orchestrator receives a
-- specialist's proposal as text, opens an approval case for it, and has it carried out once a human
-- has approved. The parts modelled here, with the files of the repository they are about:
--
-- * Cases/ is app/cluster/cases.py. Case holds `ApprovalCase`, Store the contract of `CaseStore`
--   as a record of operations with laws, Memory `InMemoryCaseStore`, Table `DatabaseCaseStore` over
--   a parameter `Engine` for SQLAlchemy, whose calls may raise, Replies the reading of an agent's texts
--   (`_json_objects_in`, `find_proposals`, `find_execution`, `case_from_proposal`,
--   `execution_instruction`, `_unpack`, `reply_texts`, `summarise`).
--   Lifecycle is about sequences of calls.
-- * Serving is app/fast_api_app.py: `_run_turn` and the endpoints `cases_run`, `cases_list`,
--   `case_detail` and `case_decide`, as functions on a `World` of the store, the messages given to
--   the Runner and the ids drawn. They take any store; the Runner, which is ADK with the models, is
--   a function of all messages given to it, and `meanwhile` is what other requests do to the store
--   while a turn runs. Gate, Confirm, Retry, Rejected and Run hold the
--   proofs.
-- * Cluster/Config is app/cluster/config.py and app/cluster/resolver.py; Cluster/Database is
--   app/cluster/db.py, whose child Sharing models `Database.engine` as steps of threads under any
--   schedule, and whose child Closing is `engine` with `aclose`, over drivers that may raise.
--   Cluster/Peer is app/cluster/peer_tool.py: the tool through which an agent calls a peer.
-- * Shared/Artifacts is app/shared/artifacts.py over a `Storage` of files and a `Library` of ADK's
--   and Python's functions, with laws in `IsStorage` and `IsLibrary`. `Outcome` tells
--   `InputValidationError` from other exceptions. Its child Service is the asynchronous methods,
--   as calls one after another, and the provider; Overlap in it is saves whose steps interleave.
-- * Agents/ is app/agents/math/tools.py: Arithmetic is `calculate`, Publishing `publish_result`.
--   Reporting is app/agents/reporting.py, which restates tool results as JSON, and Restated shows
--   that the caller finds them; Documents is app/agents/documents.py. Contracts is
--   app/agents/contracts.py, the payloads with their fields, and Team the specs of the four agents
--   in app/agents/*/agent.py.
-- * Shared/Models is app/shared/model_selection.py, with the order of Python's tuples in Shared/Keys;
--   Shared/Catalog is app/shared/model_catalog.py, app/shared/config.py and
--   app/shared/model_factory.py. Shared/Secrets is app/shared/secrets.py, Shared/Logging
--   app/shared/logging.py, Shared/Telemetry app/shared/telemetry.py and app/shared/observability.py.
-- * Wiring/Services is app/cluster/session.py, app/cluster/tasks.py and app/cluster/artifacts.py:
--   which service a setting selects. Wiring/Agent is app/cluster/di.py, app/agents/base.py and the
--   module body of app/agent.py as one function from the environment to a process. Wiring/Delegates
--   follows a call from such a process through the tool of a peer; Wiring/Surfaces is
--   app/app_utils and `lifespan` of app/fast_api_app.py, which hand the services to the web routes,
--   to the Runner and to A2A.
-- * Schemas/ is the administration: Bootstrap is app/cluster/bootstrap.py, Grants
--   scripts/grant_readers.py, Migrating app/migrations/env.py; Identifiers holds their patterns.
--   Tables holds app/migrations/versions: Sessions, Tasks, Hitl and Cases are revisions as calls on
--   Alembic, Roles the statements of the revision 0003; Effects is what PostgreSQL documents of
--   these calls.
-- * Prelude, Text and Json hold Python's dicts, strings and JSON values, Text/Split the lemmas on
--   `split` and `join`; Tests holds the concrete inputs.
--
-- Numbers are natural numbers where the source counts, and a parameter where they are floats or come
-- out of JSON. A moment is a natural number. Environment variables are a function from names to
-- optional texts. An `Option` result `none` of an endpoint is an exception that escapes.
--
-- Fuel: the scan of `_json_objects_in` runs on one more than the number of characters, and more does
-- not change its result where decoding uses up some text. A load of an artifact that is a
-- reference follows it; its fuel is the recursion depth that Python allows, and where it runs out
-- the load has crashed. One level is enough for an artifact that is no reference.
--
-- Parameters with laws: what a database does with the statements sent to it that it does not refuse,
-- with timestamps read back in UTC or without an offset, and objects as its JSON columns hand them
-- back; what a storage does with a file that is written or removed, where it refuses neither, and
-- which files `rglob` lists; what Alembic's operations do to the tables; that Pydantic and
-- `AgentTool` validate against the schema they are given; that `int` reads what `str` wrote, and
-- base64 and JSON read back what they wrote. The digits of Unicode, `upper` and
-- `lower`, genai's client, Secret Manager, cloudpathlib and the levels that the logging libraries
-- know are parameters without laws. A call that may raise returns an `Attempt`.
--
-- Not modelled: the network behind a peer's tool, which is a parameter, the output of log lines, the
-- deployment files, and a deletion of an artifact that overlaps with its other calls. The injector's
-- singletons are values handed on.
pub mod Prelude
pub mod Text
pub mod Json
pub mod Cases
pub mod Cluster
pub mod Agents
pub mod Schemas
pub mod Serving
pub mod Shared
pub mod Wiring
mod Tests
