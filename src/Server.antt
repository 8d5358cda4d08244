-- ===== src/Server.antt =====
-- server/: the server's half of the peering protocol.
pub mod Handshake
pub mod Shutdown
pub mod Peers
pub mod Greets
pub mod Runner
pub mod Ids
pub mod Heard
pub mod Connections
