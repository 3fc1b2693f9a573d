-- ===== src/Migration.antt =====
-- The migration of a profile's files, crates/core-profiles/src/migration.rs.
pub mod Errors
pub mod Transaction
pub mod Copy
pub mod Validation
pub mod Engine
pub mod Paths
