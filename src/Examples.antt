-- ===== src/Examples.antt =====
-- The theorems at concrete inputs: one request on the wire, and parsers, builders and messages
-- around it.
pub mod Data
pub mod Parsing
pub mod Messages
pub mod Streams
pub mod Peers
pub mod Channels
pub mod Managers
pub mod Pipes
pub mod Hosts
pub mod Registries
pub mod Inboxes
pub mod Joined
pub mod Exchanges
