-- ===== src/Intelligence.antt =====
-- crates/zedb-ch/src/schema_intelligence: what the editor knows of the SQL text.
pub mod Tokens
pub mod Statement
