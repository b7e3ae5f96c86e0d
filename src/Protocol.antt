-- ===== src/Protocol.antt =====
-- crates/protocol: the fleximq wire protocol.
pub mod Constants
pub mod Errors
pub mod Types
pub mod External
pub mod Parser
pub mod Message
pub mod Codec
pub mod Builder
pub mod Exchange
