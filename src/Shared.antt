-- ===== src/Shared.antt =====
-- app/shared: what every agent uses.
pub mod Artifacts
pub mod Catalog
pub mod Keys
pub mod Logging
pub mod Models
pub mod Secrets
pub mod Telemetry
