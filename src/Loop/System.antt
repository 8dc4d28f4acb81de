-- ===== src/Loop/System.antt =====
-- What src/raop_loop.cpp asks of the operating system, and the state of `RaopLoop`: `TcpSlot`,
-- `UdpSlot` and `RaopLoop::Impl`. The POSIX branch of the file. Times are in nanoseconds.
use airplay2_sender_cpp.Base.{ℕ, Bool, true, false, List, [], ◌∷◌, Option, none, some, Bytes, ◌==◌}
use airplay2_sender_cpp.Sender.Action.{RaopTcp, RaopUdp, RaopEndpoint}

-- `sock_t`; `none` is `kBadSock`.
abbrev pub Sock : Type 0
Sock = Option ℕ

abbrev pub sock_eq : Sock → Sock → Bool
sock_eq none none = true
sock_eq none (some y) = false
sock_eq (some x) none = false
sock_eq (some x) (some y) = x == y

abbrev pub is_bad : Sock → Bool
is_bad none = true
is_bad (some x) = false

-- `pollfd_t`: what is waited for, always `kPollIn`, `kPollOut` or both.
pub record PollFd : Type 0 where
  pub fd : Sock
  pub wants_in : Bool
  pub wants_out : Bool

-- The `revents` of one descriptor.
pub record Revents : Type 0 where
  pub poll_in : Bool
  pub poll_out : Bool
  pub poll_err : Bool
  pub poll_hup : Bool
  pub poll_nval : Bool

-- The calls of the system. `set_options` stands for the options of a socket, `SO_NOSIGPIPE`,
-- `TCP_NODELAY`, `SO_RCVBUF` and `O_NONBLOCK`, whose outcome the code ignores; `get_error` is
-- `getsockopt` for `SO_ERROR`.
pub data Sys : Type 0 where
  resolve : Bytes → Sys
  -- the flag is `true` for a stream
  socket : Bool → Sys
  set_options bind getsockname getpeername get_error shutdown close : Sock → Sys
  connect : Sock → Bytes → ℕ → Sys
  send : Sock → Bytes → Sys
  recv recvfrom : Sock → ℕ → Sys
  sendto : Sock → RaopEndpoint → Bytes → Sys
  poll : List PollFd → ℕ → Sys
  sleep : ℕ → Sys
  clock : Sys

-- What a call gives back; each call has its own use of the fields. A `count` of `none` is -1.
pub record Answer : Type 0 where
  pub count : Option ℕ
  pub bytes : Bytes
  pub endpoint : RaopEndpoint
  pub errno : ℕ
  pub revents : List Revents
  pub time : ℕ
  pub wall : ℕ

-- A system: the answer to the latest of the calls made so far, and the tables of its error numbers
-- and addresses.
pub record Os : Type 0 where
  pub answer : List Sys → Answer
  pub error_text : ℕ → Bytes
  pub would_block : ℕ → Bool
  pub in_progress : ℕ → Bool
  pub valid_ip : Bytes → Bool

-- `TcpSlot`
pub record TcpSlot : Type 0 where
  pub fd : Sock
  pub gen : ℕ
  pub connecting : Bool
  pub connected : Bool
  pub out : Bytes
  pub out_off : ℕ
  pub failed_to_start : Option Bytes
  pub send_failed : Option Bytes

-- `UdpSlot`
pub record UdpSlot : Type 0 where
  pub fd : Sock
  pub gen : ℕ

-- `RaopLoop::Impl` with its five slots, and the calls made so far, the latest first.
pub record Loop : Type 0 where
  pub tcp_control : TcpSlot
  pub tcp_event : TcpSlot
  pub udp_audio : UdpSlot
  pub udp_control : UdpSlot
  pub udp_timing : UdpSlot
  pub log : List Sys

-- `Impl::t`
abbrev pub tcp_slot : RaopTcp → Loop → TcpSlot
tcp_slot RaopTcp.control l = l.tcp_control
tcp_slot RaopTcp.event l = l.tcp_event

-- `Impl::u`
abbrev pub udp_slot : RaopUdp → Loop → UdpSlot
udp_slot RaopUdp.audio l = l.udp_audio
udp_slot RaopUdp.control l = l.udp_control
udp_slot RaopUdp.timing l = l.udp_timing

abbrev pub set_tcp : RaopTcp → TcpSlot → Loop → Loop
set_tcp RaopTcp.control s l = record l { tcp_control = s }
set_tcp RaopTcp.event s l = record l { tcp_event = s }

abbrev pub set_udp : RaopUdp → UdpSlot → Loop → Loop
set_udp RaopUdp.audio u l = record l { udp_audio = u }
set_udp RaopUdp.control u l = record l { udp_control = u }
set_udp RaopUdp.timing u l = record l { udp_timing = u }

-- A call of the system.
abbrev pub ask : Sys → Loop → Loop
ask sys l = record l { log = sys ∷ l.log }

-- `TcpSlot::reset`
abbrev pub reset_slot : TcpSlot → TcpSlot
reset_slot s = record {
  fd = none;
  gen = s.gen;
  connecting = false;
  connected = false;
  out = [];
  out_off = 0;
  failed_to_start = none;
  send_failed = none;
}

-- A loop as its constructor leaves it.
abbrev pub new_loop : Loop
new_loop =
    let t : TcpSlot = record {
      fd = none;
      gen = 0;
      connecting = false;
      connected = false;
      out = [];
      out_off = 0;
      failed_to_start = none;
      send_failed = none;
    } in
    let u : UdpSlot = record { fd = none; gen = 0 } in
    record {
      tcp_control = t;
      tcp_event = t;
      udp_audio = u;
      udp_control = u;
      udp_timing = u;
      log = [];
    }

module _ (os : Os) where
  -- The answer to the latest call.
  abbrev pub reply : Loop → Answer
  reply l = os.answer l.log
