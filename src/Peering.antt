-- ===== src/Peering.antt =====
-- peering.py: the protocol of two equal peers.
pub mod Codec
pub mod CodecLaws
pub mod Establish
pub mod Agreement
