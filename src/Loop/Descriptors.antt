-- ===== src/Loop/Descriptors.antt =====
-- The descriptors that src/raop_loop.cpp holds, against the calls of the system that it has made.
pub mod Primitives
pub mod Slots
pub mod Io
pub mod Delivery
pub mod Ready
pub mod Pump
pub mod Sessions
use airplay2_sender_cpp.Base.{
  ℕ, ◌+◌, ◌-◌, ◌<◌, ◌≡◌, Bool, true, false, List, [], ◌∷◌, none, some, ◌==◌, if◌then◌else◌,
}
use airplay2_sender_cpp.Sender.Action.{RaopTcp, RaopUdp}
use airplay2_sender_cpp.Loop.System.{
  Sock, Sys, Os, PollFd, TcpSlot, UdpSlot, Loop, tcp_slot, udp_slot, is_bad,
}

-- 1 if the socket is the descriptor `x`.
abbrev pub held : ℕ → Sock → ℕ
held x none = 0
held x (some y) = if y == x then 1 else 0

-- How many slots hold the descriptor `x`.
abbrev pub holds : ℕ → Loop → ℕ
holds x l =
    held x l.tcp_control.fd
    + (held x l.tcp_event.fd
        + (held x l.udp_audio.fd + (held x l.udp_control.fd + held x l.udp_timing.fd)))

abbrev pub AllFds : (Sock → Type 0) → List PollFd → Type 0
AllFds P [] = Unit
AllFds P (p ∷ ps) = P p.fd × AllFds P ps

module _ (os : Os) where
  -- How often the system has handed out the descriptor `x` and not got it back.
  abbrev pub live : ℕ → List Sys → ℕ
  live x [] = 0
  live x (Sys.socket stream ∷ log) = held x (os.answer (Sys.socket stream ∷ log)).count + live x log
  live x (Sys.close fd ∷ log) = live x log - held x fd
  live x (Sys.resolve host ∷ log) = live x log
  live x (Sys.set_options fd ∷ log) = live x log
  live x (Sys.bind fd ∷ log) = live x log
  live x (Sys.getsockname fd ∷ log) = live x log
  live x (Sys.getpeername fd ∷ log) = live x log
  live x (Sys.get_error fd ∷ log) = live x log
  live x (Sys.shutdown fd ∷ log) = live x log
  live x (Sys.connect fd address port ∷ log) = live x log
  live x (Sys.send fd bytes ∷ log) = live x log
  live x (Sys.recv fd n ∷ log) = live x log
  live x (Sys.recvfrom fd n ∷ log) = live x log
  live x (Sys.sendto fd to bytes ∷ log) = live x log
  live x (Sys.poll fds ms ∷ log) = live x log
  live x (Sys.sleep ms ∷ log) = live x log
  live x (Sys.clock ∷ log) = live x log

  -- A socket that is not bad and that the system has handed out and not got back.
  abbrev pub Live : List Sys → Sock → Type 0
  Live log none = ⊥
  Live log (some x) = 0 < live x log

  -- A call names live descriptors only.
  abbrev pub Needs : Sys → List Sys → Type 0
  Needs (Sys.socket stream) log = Unit
  Needs (Sys.close fd) log = Live log fd
  Needs (Sys.resolve host) log = Unit
  Needs (Sys.set_options fd) log = Live log fd
  Needs (Sys.bind fd) log = Live log fd
  Needs (Sys.getsockname fd) log = Live log fd
  Needs (Sys.getpeername fd) log = Live log fd
  Needs (Sys.get_error fd) log = Live log fd
  Needs (Sys.shutdown fd) log = Live log fd
  Needs (Sys.connect fd address port) log = Live log fd
  Needs (Sys.send fd bytes) log = Live log fd
  Needs (Sys.recv fd n) log = Live log fd
  Needs (Sys.recvfrom fd n) log = Live log fd
  Needs (Sys.sendto fd to bytes) log = Live log fd
  Needs (Sys.poll fds ms) log = AllFds (Live log) fds
  Needs (Sys.sleep ms) log = Unit
  Needs Sys.clock log = Unit

  -- Every call so far has named descriptors that were live at its time.
  abbrev pub Proper : List Sys → Type 0
  Proper [] = Unit
  Proper (sys ∷ log) = Needs sys log × Proper log

  -- The live descriptors are those in the slots, and `t`, which a call in progress holds.
  pub record Owns (t : Sock) (l : Loop) : Type 0 where
    pub proper : Proper l.log
    pub counts : (x : ℕ) → live x l.log ≡ held x t + holds x l

  abbrev pub IsSound : Loop → Type 0
  IsSound l = Owns none l

  -- A slot that is not closed.
  abbrev pub IsOpen : RaopTcp → Loop → Type 0
  IsOpen ch l = is_bad (tcp_slot ch l).fd ≡ false

  abbrev pub IsOpenUdp : RaopUdp → Loop → Type 0
  IsOpenUdp u l = is_bad (udp_slot u l).fd ≡ false
