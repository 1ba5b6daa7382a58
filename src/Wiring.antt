-- ===== src/Wiring.antt =====
-- How a process is put together: app/cluster/session.py, app/cluster/tasks.py,
-- app/cluster/artifacts.py, app/cluster/di.py, app/agents/base.py and app/agent.py, and what it
-- serves: app/app_utils and `lifespan` of app/fast_api_app.py. The services are named by what they
-- are constructed with; the injector hands each provider's value on.
pub mod Services
pub mod Agent
pub mod Started
pub mod Delegates
pub mod Surfaces
