-- ===== src/Protocol.antt =====
-- protocol.rs: the packed host messages.
pub mod Types
pub mod Writer
pub mod Message
pub mod Umac
pub mod Commands
pub mod Queues
pub mod SystemInit
pub mod DataHeader
mod Tests
