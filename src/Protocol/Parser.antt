-- ===== src/Protocol/Parser.antt =====
-- crates/protocol/src/parser.rs
pub mod Base
pub mod Frame
pub mod Stream
pub mod Validate
pub mod Peek
