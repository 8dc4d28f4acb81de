-- ===== src/Loop/Slots.antt =====
-- `closeTcp`, `closeUdp` and `drain` of `RaopLoop::Impl` and the destructor, src/raop_loop.cpp.
use airplay2_sender_cpp.Base.{
  ℕ, zero, suc, ◌+◌, ◌%◌, ◌^◌, Bool, true, false, [], Option, none, some, length, drop, ltb,
  if◌then◌else◌,
}
use airplay2_sender_cpp.Sender.Action.{RaopTcp, RaopUdp}
use airplay2_sender_cpp.Loop.System.{
  Sock, Sys, Os, TcpSlot, Loop, tcp_slot, udp_slot, set_tcp, set_udp, ask, reset_slot, reply,
}

-- `if (fd != kBadSock) closeSocket(fd)`
abbrev pub close_socket : Sock → Loop → Loop
close_socket none l = l
close_socket (some x) l = ask (Sys.close (some x)) l

-- `closeTcp`
unfoldable pub close_tcp : RaopTcp → Loop → Loop
close_tcp ch l = set_tcp ch (reset_slot (tcp_slot ch l)) (close_socket (tcp_slot ch l).fd l)

-- `closeUdp`
unfoldable pub close_udp : RaopUdp → Loop → Loop
close_udp u l = set_udp u (record (udp_slot u l) { fd = none }) (close_socket (udp_slot u l).fd l)

-- `++gen` on 32 bits.
abbrev pub next_gen : ℕ → ℕ
next_gen gen = (gen + 1) % 2 ^ 32

abbrev pub sent_up : RaopTcp → ℕ → Loop → Loop
sent_up ch n l = set_tcp ch (record (tcp_slot ch l) { out_off = (tcp_slot ch l).out_off + n }) l

abbrev pub all_sent : RaopTcp → Loop → Loop
all_sent ch l = set_tcp ch (record (tcp_slot ch l) { out = []; out_off = 0 }) l

abbrev pub unsent : TcpSlot → Bool
unsent s = ltb s.out_off (length s.out)

abbrev pub send_next : RaopTcp → Loop → Loop
send_next ch l = let s = tcp_slot ch l in ask (Sys.send s.fd (drop s.out_off s.out)) l

module _ (os : Os) where
  -- After `send`: what is left to do, or whether the error is fatal.
  unfoldable pub drained : (Loop → Loop × Option ℕ) → RaopTcp → Loop → Option ℕ → Loop × Option ℕ
  drained more ch l (some (suc n)) = more (sent_up ch (suc n) l)
  drained more ch l (some zero) = (l, some (reply os l).errno)
  drained more ch l none =
      let e = (reply os l).errno in (l, if os.would_block e then none else some e)

  -- The loop of `drain`. The error of a fatal failure is returned; `none` is its `true`.
  unfoldable pub drain_loop : ℕ → RaopTcp → Loop → Loop × Option ℕ
  unfolding drained
  drain_loop zero ch l = (l, none)
  drain_loop (suc fuel) ch l = elim (unsent (tcp_slot ch l)) [
    | true ↦ drained (drain_loop fuel ch) ch (send_next ch l) (reply os (send_next ch l)).count
    | false ↦ (all_sent ch l, none)
  ]

  -- `drain`: every round but the last sends a byte or more.
  unfoldable pub drain : RaopTcp → Loop → Loop × Option ℕ
  unfolding drain_loop
  drain ch l = drain_loop (suc (length (tcp_slot ch l).out)) ch l

-- `~RaopLoop`
unfoldable pub destroy : Loop → Loop
unfolding close_tcp close_udp
destroy l = close_udp RaopUdp.timing (
    close_udp RaopUdp.control
      (close_udp RaopUdp.audio (close_tcp RaopTcp.event (close_tcp RaopTcp.control l))))
