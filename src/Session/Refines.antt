-- ===== src/Session/Refines.antt =====
-- The exchanges of session/exchange.py against the rules of Session/Rules.
pub mod Client
pub mod Reports
pub mod Exchange
pub mod Server
pub mod ServerRounds
pub mod Echoed
pub mod ServerExchange
