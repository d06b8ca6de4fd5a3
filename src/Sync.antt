-- ===== src/Sync.antt =====
-- crates/zedb-core/src/sync.rs: settings kept in step through a git repository.
pub mod Connections
pub mod Merge
pub mod Names
pub mod Preferences
pub mod Tick
pub mod Decide
