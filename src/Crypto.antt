-- ===== src/Crypto.antt =====
-- src/airplay_crypto.cpp over its back ends, Mbed TLS and the vendored Ed25519 and X25519 code,
-- which are the parameter `Backend`.
pub mod Backend
pub mod Aead
pub mod Curves
pub mod Srp
pub mod Samples
mod Tests
