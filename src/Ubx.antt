-- ===== src/Ubx.antt =====
-- The u-blox message processor: ublox_driver/src/gnss_message_parser/.
pub mod Checksum
pub mod Frame
pub mod Bits
pub mod Signals
mod Tests
