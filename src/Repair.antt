-- ===== src/Repair.antt =====
-- crates/core-profiles/src/repair.rs: the transactional repair of a profile's registry keys.
pub mod Env
pub mod Checks
pub mod Steps
pub mod Rollback
pub mod Engine
