-- ===== src/Cases.antt =====
-- app/cluster/cases.py, approval cases: the case record, the contract of a store and its two
-- implementations, and how a proposal is read back from the replies of a specialist.
pub mod Case
pub mod Store
pub mod Memory
pub mod Table
pub mod Replies
pub mod Lifecycle
