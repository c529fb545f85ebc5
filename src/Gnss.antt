-- ===== src/Gnss.antt =====
-- The gnss_comm library: satellites and time systems.
pub mod Satellites
pub mod Time
mod Tests
