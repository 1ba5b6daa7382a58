-- ===== src/Shared/Artifacts.antt =====
-- app/shared/artifacts.py, `CloudPathArtifactService`: versions of artifacts in files.
pub mod Storage
pub mod Versions
pub mod Write
pub mod Read
pub mod Numbers
pub mod Saved
pub mod RoundTrip
pub mod Cycles
pub mod Deleted
pub mod Listing
pub mod Listed
pub mod Service
