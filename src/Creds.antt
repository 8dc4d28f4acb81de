-- ===== src/Creds.antt =====
-- The stored-pairing credentials of src/raop_creds.h and their JSON text.
pub mod Hex
pub mod Json
pub mod Store
mod Tests
