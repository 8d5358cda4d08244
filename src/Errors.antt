-- ===== src/Errors.antt =====
-- Which exceptions leave the program's functions, on a port that itself raises none.
pub mod Framing
pub mod Sessions
pub mod Exchanges
pub mod Programs
