-- ===== src/Sender/Auth.antt =====
-- `RaopDeviceInfo::Auth` of src/raop_auth.h.
use airplay2_sender_cpp.Base.{Bool, true, false}

pub data Auth : Type 0 where
  none password auth_setup legacy_pin hap_transient hap_pin : Auth

abbrev pub is_transient : Auth → Bool
is_transient hap_transient = true
is_transient _ = false

abbrev pub is_auth_setup : Auth → Bool
is_auth_setup auth_setup = true
is_auth_setup _ = false
