-- ===== src/Schemas.antt =====
-- The administration of the database: app/cluster/bootstrap.py, app/migrations and
-- scripts/grant_readers.py.
pub mod Identifiers
pub mod Bootstrap
pub mod Grants
pub mod Granted
pub mod Migrating
pub mod Tables
