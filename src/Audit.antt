-- ===== src/Audit.antt =====
-- The crate `audit-journal`: the durable journal, its events, and the legacy storage transition.
pub mod Event
pub mod Journal
pub mod Legacy
pub mod Rollback
pub mod Snapshot
