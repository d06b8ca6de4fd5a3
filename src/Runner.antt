-- ===== src/Runner.antt =====
-- crates/zedb-ch/src/runner: running the chain against real servers.
pub mod Base
pub mod Route
pub mod Tracking
pub mod Numbers
pub mod Targets
pub mod Execution
pub mod Apply
pub mod Actions
pub mod Status
