-- ===== src/Examples.antt =====
-- The theorems at concrete inputs: a serial line that holds the bytes that are still to be read.
mod Line
mod Port
mod Channels
mod Tools
mod Frames
mod Received
mod Connections
mod Runs
mod Reports
mod Races
mod Handshakes
mod Sides
