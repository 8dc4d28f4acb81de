-- ===== src/Sender/Pairing.antt =====
-- The pairing chain of src/raop_sender.cpp: pair-setup, pair-verify, and the dispatcher of their
-- replies. A null pointer that is dereferenced, and an exception that escapes, set `fault`.
pub mod Setup
pub mod Verify
pub mod Keys
pub mod Replies
pub mod Fallback
