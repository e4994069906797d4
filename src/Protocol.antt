-- ===== src/Protocol.antt =====
-- src/vds_protocol.cc: packets, checksums, trigger effects and the output state.
pub mod Bits
pub mod Crc
pub mod Checksum
pub mod Packets
pub mod Framing
pub mod Triggers
pub mod Zones
pub mod Effects
pub mod Output
mod Tests
