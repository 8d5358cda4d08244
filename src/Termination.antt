-- ===== src/Termination.antt =====
-- Whether the loops of the program come to an end, component by component.
pub mod Framing
pub mod Loops
pub mod Sessions
pub mod Exchanges
pub mod Programs
pub mod Races
