-- ===== src/Peer.antt =====
-- crates/peer.
pub mod Handshake
pub mod Shared
pub mod Connect
