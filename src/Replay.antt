-- ===== src/Replay.antt =====
-- crates/zedb-ch/src/replay.rs: splitting rendered SQL into the statements that are run.
pub mod Split
