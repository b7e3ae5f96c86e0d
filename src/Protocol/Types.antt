-- ===== src/Protocol/Types.antt =====
-- crates/protocol/src/types.rs
pub mod MessageType
pub mod StatusCode
pub mod Header
pub mod BaseHeader
