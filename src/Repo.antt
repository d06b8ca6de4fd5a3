-- ===== src/Repo.antt =====
-- crates/zedb-core/src/repo: the migration repository on disk.
pub mod Template
pub mod Chain
