-- ===== src/Tlv/Tag.antt =====
-- `tlv::Type`, the tags that the sender uses.
use airplay2_sender_cpp.Base.{ℕ}

abbrev pub method : ℕ
method = 0x00

abbrev pub identifier : ℕ
identifier = 0x01

abbrev pub salt : ℕ
salt = 0x02

abbrev pub public_key : ℕ
public_key = 0x03

abbrev pub proof : ℕ
proof = 0x04

abbrev pub encrypted_data : ℕ
encrypted_data = 0x05

abbrev pub state : ℕ
state = 0x06

abbrev pub error : ℕ
error = 0x07

abbrev pub signature : ℕ
signature = 0x0A

abbrev pub flags : ℕ
flags = 0x13
