-- ===== src/Transport.antt =====
-- crates/transport: what the model covers of it.
pub mod Errors
pub mod Traits
pub mod Io
pub mod Polls
pub mod Streams
pub mod Messages
pub mod Channel
pub mod Manager
pub mod Tcp
pub mod Ipc
pub mod Stdio
pub mod Words
pub mod WebSocket
