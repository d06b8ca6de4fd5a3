-- ===== src/Tests.antt =====
-- Runs on concrete inputs, and the theorems at inputs that meet their hypotheses.
pub mod Template
pub mod Split
pub mod Chain
pub mod Fleet
pub mod Runner
pub mod Sync
pub mod Wire
pub mod Types
pub mod Value
pub mod Intelligence
pub mod Pool
pub mod Tail
pub mod Editor
