-- ===== src/Platform.antt =====
-- The crate `platform-win32`: wide strings, the registry wrappers and the Restart Manager.
pub mod Wide
pub mod Registry
pub mod Security
pub mod Tokens
