-- ===== src/Tests.antt =====
-- Concrete inputs, and each theorem at one of them.
mod Engines
mod Disk
mod Walk
mod Stores
mod Endpoints
mod Reading
mod Files
mod Models
mod Process
mod Delegation
mod Services
mod Reporting
mod Roles
