-- ===== src/Station.antt =====
-- station.rs: the fail-closed connection state machine of one station interface.
pub mod Types
pub mod Core
pub mod Events
pub mod Port
pub mod Commands
pub mod Encoders
pub mod Invariant
pub mod Deadlines
pub mod FailClosed
pub mod Authorization
pub mod Runs
mod Tests
