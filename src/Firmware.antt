-- ===== src/Firmware.antt =====
-- firmware.rs: the firmware bundle and its loader.
pub mod Bundle
pub mod Trust
pub mod Loader
mod Tests
