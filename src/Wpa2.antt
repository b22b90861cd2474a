-- ===== src/Wpa2.antt =====
-- wpa2.rs: the WPA2-Personal supplicant, its four-way handshake and its group rekey.
pub mod Types
pub mod Crypto
pub mod Frame
pub mod Keys
pub mod Rsn
pub mod Response
pub mod State
pub mod Completion
pub mod Messages
pub mod Supplicant
pub mod Invariant
pub mod Replay
pub mod Verified
pub mod Histories
pub mod NoPanic
mod Tests
