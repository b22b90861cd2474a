-- ===== src/Control.antt =====
-- control.rs: station control events.
pub mod Types
pub mod Encode
pub mod Commands
pub mod Parse
mod Tests
