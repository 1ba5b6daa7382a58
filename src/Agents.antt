-- ===== src/Agents.antt =====
-- app/agents: the specs of the team, the payloads that its agents exchange, the tools of the
-- specialists, and the report of their results.
pub mod Arithmetic
pub mod Contracts
pub mod Documents
pub mod Publishing
pub mod Reporting
pub mod Team
