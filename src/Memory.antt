-- ===== src/Memory.antt =====
-- memory.rs: access to the memory of the RPU.
pub mod Address
pub mod Rpu
mod Tests
