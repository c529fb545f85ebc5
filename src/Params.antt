-- ===== src/Params.antt =====
-- The parameters of the driver: ublox_driver/src/params/params.cpp.
pub mod Text
pub mod Center
pub mod Load
pub mod Checked
pub mod Missing
pub mod Records
pub mod Hex
mod Tests
