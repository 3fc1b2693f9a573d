-- ===== src/Platform/Registry.antt =====
-- crates/platform-win32/src/registry.rs: the typed wrappers over the Windows registry calls. The
-- calls themselves are the record `Win32Registry`, over an unknown state.
pub mod Api
pub mod Keys
pub mod Values
pub mod Display
pub mod Expand
pub mod View
pub mod Reads
pub mod Enumeration
