-- ===== src/Data.antt =====
-- data.rs: packet-RAM layout, descriptor ownership, data events and frame conversion.
pub mod Types
pub mod Layout
pub mod Port
pub mod Tokens
pub mod Command
pub mod Events
pub mod Convert
pub mod Transmit
pub mod Receive
mod Tests
