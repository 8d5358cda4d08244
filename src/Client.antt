-- ===== src/Client.antt =====
-- client/: the client's half of the peering protocol.
pub mod Handshake
pub mod Shutdown
pub mod Runner
pub mod Peers
pub mod Greets
pub mod Sessions
pub mod ExitCodes
