-- ===== src/Driver.antt =====
-- The driver manager: ublox_driver/src/gnss_communication_wrapper/ublox_driver.cpp without its RTCM
-- frames, which are in Rtcm.
pub mod Gga
pub mod Startup
pub mod Setup
mod Tests
