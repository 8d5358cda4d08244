-- ===== src/Composed.antt =====
-- The two sides of a session on one line: client/ and server/ together.
pub mod Handshakes
pub mod Sessions
