-- ===== src/Tests.antt =====
-- A small machine, and runs of the definitions on it.
pub mod Machine
pub mod Laws
mod Repairs
pub mod Disk
mod Journals
mod Profiles
mod Migrations
mod Copies
mod Launches
mod Transfers
mod Windows
mod Snapshots
