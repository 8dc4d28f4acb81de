-- ===== src/Sender/Stage.antt =====
-- `State` and `PairStage` of src/raop_sender.h.
use airplay2_sender_cpp.Base.{Bool, true, false}

pub data State : Type 0 where
  idle connecting pairing handshake streaming : State

abbrev pub is_idle : State → Bool
is_idle idle = true
is_idle _ = false

abbrev pub is_connecting : State → Bool
is_connecting connecting = true
is_connecting _ = false

abbrev pub is_streaming : State → Bool
is_streaming streaming = true
is_streaming _ = false

-- `Connecting`, `Pairing` or `Handshake`.
abbrev pub is_starting : State → Bool
is_starting idle = false
is_starting streaming = false
is_starting _ = true

-- `Handshake` or `Pairing`.
abbrev pub is_shaking : State → Bool
is_shaking pairing = true
is_shaking handshake = true
is_shaking _ = false

pub data PairStage : Type 0 where
  none auth_setup pin_start setup_m2 setup_m4 setup_m6 verify_m2 verify_done : PairStage
  ap2_info ap2_session ap2_record ap2_stream done : PairStage

abbrev pub at_auth_setup : PairStage → Bool
at_auth_setup auth_setup = true
at_auth_setup _ = false

abbrev pub at_pin_start : PairStage → Bool
at_pin_start pin_start = true
at_pin_start _ = false

abbrev pub at_setup_m2 : PairStage → Bool
at_setup_m2 setup_m2 = true
at_setup_m2 _ = false

abbrev pub at_ap2_record : PairStage → Bool
at_ap2_record ap2_record = true
at_ap2_record _ = false
