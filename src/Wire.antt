-- ===== src/Wire.antt =====
-- crates/zedb-ch/src/rowbinary.rs and types.rs: the rows that a server sends.
pub mod Types
pub mod Reader
pub mod Lexer
pub mod Parse
pub mod Values
pub mod Rows
pub mod Stream
