-- ===== src/Sender/Action.antt =====
-- What the sender does to the outside: the six calls of `RaopIo` (src/raop_io.h) and the events of
-- `RaopEvents` (src/raop_sender.h).
use airplay2_sender_cpp.Base.{ℕ, Bool, Bytes}

pub data RaopTcp : Type 0 where
  control event : RaopTcp

pub data RaopUdp : Type 0 where
  audio control timing : RaopUdp

pub record RaopEndpoint : Type 0 where
  pub ip : Bytes
  pub port : ℕ

pub data Action : Type 0 where
  tcp_connect : RaopTcp → Bytes → ℕ → Action
  tcp_send : RaopTcp → Bytes → Action
  -- the flag asks for a graceful close
  tcp_close : RaopTcp → Bool → Action
  udp_bind : RaopUdp → Action
  udp_send : RaopUdp → RaopEndpoint → Bytes → Action
  udp_close : RaopUdp → Action
  launched : Bool → Bytes → Action
  closed : Action
  pin_required : Bytes → Action
  credentials_obtained : Bytes → Bytes → Action
