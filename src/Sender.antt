-- ===== src/Sender.antt =====
-- The sender of src/raop_sender.h and src/raop_sender.cpp as explicit state passing.
pub mod Auth
pub mod Stage
pub mod Action
pub mod State
pub mod Request
pub mod Lifecycle
pub mod Alac
pub mod Clock
pub mod Volume
pub mod Resample
pub mod Rtp
pub mod Handshake
pub mod Ap2Setup
pub mod Pairing
pub mod Responses
pub mod Receive
pub mod Events
pub mod Timers
pub mod Calls
pub mod Invariant
mod Tests
