-- ===== src/Session.antt =====
-- session/: the exchange of messages behind the handshake, and its result.
pub mod Outcome
pub mod Stats
pub mod Rules
pub mod Refines
pub mod Echoes
pub mod Report
pub mod Latency
mod Counts
pub mod ClientCounts
pub mod ServerCounts
pub mod ClientExchange
pub mod ServerExchange
