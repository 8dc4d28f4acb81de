-- ===== src/Loop.antt =====
-- src/raop_loop.h and src/raop_loop.cpp: the host of the sender around `poll`.
pub mod System
pub mod Slots
pub mod Io
pub mod Client
pub mod Pump
pub mod Descriptors
pub mod Stream
mod Tests
