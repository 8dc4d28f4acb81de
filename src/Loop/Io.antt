-- ===== src/Loop/Io.antt =====
-- The six calls of `RaopIo` as `RaopLoop` implements them, src/raop_loop.cpp.
use airplay2_sender_cpp.Base.{
  ℕ, zero, suc, ◌+◌, ◌-◌, ◌*◌, ◌/◌, Bool, true, false, not, ◌&&◌, ◌||◌, [], ◌∷◌, ◌++◌, Option, none,
  some, Bytes, codes, length, ltb, ◌==◌, if◌then◌else◌,
}
use airplay2_sender_cpp.Sender.Action.{RaopTcp, RaopUdp, RaopEndpoint}
use airplay2_sender_cpp.Loop.System.{
  Answer, Sock, Sys, Os, Loop, tcp_slot, udp_slot, set_tcp, set_udp, ask, reset_slot, reply, is_bad,
}
use airplay2_sender_cpp.Loop.Slots.{close_tcp, close_udp, next_gen, unsent, drain}

abbrev pub is_none : Option Bytes → Bool
is_none none = true
is_none (some x) = false

-- `closeTcp` and `++s.gen`, the start of `tcpConnect`.
unfoldable pub renew_tcp : RaopTcp → Loop → Loop
unfolding close_tcp
renew_tcp ch l =
    let l' = close_tcp ch l in
    set_tcp ch (record (tcp_slot ch l') { gen = next_gen (tcp_slot ch l').gen }) l'

unfoldable pub renew_udp : RaopUdp → Loop → Loop
unfolding close_udp
renew_udp u l =
    let l' = close_udp u l in
    set_udp u (record (udp_slot u l') { gen = next_gen (udp_slot u l').gen }) l'

-- `s.failedToStart = why`
abbrev pub park_start : RaopTcp → Bytes → Loop → Loop
park_start ch why l = set_tcp ch (record (tcp_slot ch l) { failed_to_start = some why }) l

-- `if (!s.sendFailed) s.sendFailed = why`
abbrev pub park_send : RaopTcp → Bytes → Loop → Loop
park_send ch why l =
    if is_none (tcp_slot ch l).send_failed
    then set_tcp ch (record (tcp_slot ch l) { send_failed = some why }) l
    else l

abbrev pub open_tcp : RaopTcp → Sock → Loop → Loop
open_tcp ch fd l =
    set_tcp ch (record (tcp_slot ch l) { fd = fd; connecting = true; connected = false }) l

abbrev pub open_udp : RaopUdp → Sock → Loop → Loop
open_udp u fd l = set_udp u (record (udp_slot u l) { fd = fd }) l

-- `max(1, left)` of the wait, in milliseconds; `left` is rounded to 0.
abbrev pub wait_ms : ℕ → ℕ → ℕ
wait_ms now deadline = let left = (deadline - now) / 1000000 in if left == 0 then 1 else left

abbrev pub is_zero : Option ℕ → Bool
is_zero none = false
is_zero (some n) = n == 0

abbrev pub is_positive : Option ℕ → Bool
is_positive none = false
is_positive (some n) = not (n == 0)

-- `localOf`, `peerOf`: the empty endpoint if the call fails.
abbrev pub endpoint_of : Answer → RaopEndpoint
endpoint_of a = if is_zero a.count then a.endpoint else record { ip = []; port = 0 }

abbrev pub poll_one : Sock → Bool → ℕ → Sys
poll_one fd out ms = Sys.poll (record { fd = fd; wants_in = not out; wants_out = out } ∷ []) ms

abbrev pub queue_bytes : RaopTcp → Bytes → Loop → Loop
queue_bytes ch bytes l =
    set_tcp ch (record (tcp_slot ch l) { out = (tcp_slot ch l).out ++ bytes }) l

-- The file's system, and a bound on the rounds of the loops that only the clock or the peer ends.
module _ (os : Os) (rounds : ℕ) where
  -- After `connect`.
  unfoldable pub connect_done : RaopTcp → ℕ → Loop → Loop
  connect_done ch fd l =
      if is_zero (reply os l).count || os.in_progress (reply os l).errno
      then open_tcp ch (some fd) l
      else park_start ch (os.error_text (reply os l).errno) (ask (Sys.close (some fd)) l)

  -- After `socket`.
  unfoldable pub connect_socket : RaopTcp → Bytes → ℕ → Loop → Option ℕ → Loop
  unfolding connect_done
  connect_socket ch address port l none =
      park_start ch (codes "socket: " ++ os.error_text (reply os l).errno) l
  connect_socket ch address port l (some fd) =
      connect_done ch fd
        (ask (Sys.connect (some fd) address port) (ask (Sys.set_options (some fd)) l))

  -- After `getaddrinfo`, whose `bytes` are the first address.
  unfoldable pub connect_resolved : RaopTcp → Bytes → ℕ → Loop → Option ℕ → Loop
  unfolding connect_socket
  connect_resolved ch host port l none = park_start ch (codes "cannot resolve " ++ host) l
  connect_resolved ch host port l (some n) =
      let l' = ask (Sys.socket true) l in
      connect_socket ch (reply os l).bytes port l' (reply os l').count

  -- `tcpConnect`
  unfoldable pub tcp_connect : RaopTcp → Bytes → ℕ → Loop → Loop
  unfolding connect_resolved renew_tcp
  tcp_connect ch host port l =
      let l' = ask (Sys.resolve host) (renew_tcp ch l) in
      connect_resolved ch host port l' (reply os l').count

  unfoldable pub park_error : RaopTcp → Loop × Option ℕ → Loop
  park_error ch (l, none) = l
  park_error ch (l, some e) = park_send ch (codes "send failed: " ++ os.error_text e) l

  -- `tcpSend`
  unfoldable pub tcp_send : RaopTcp → Bytes → Loop → Loop
  unfolding park_error drain
  tcp_send ch bytes l =
      if is_bad (tcp_slot ch l).fd || length bytes == 0
      then l
      else let l' = queue_bytes ch bytes l in
        if not (tcp_slot ch l').connected then l' else park_error ch (drain os ch l')

  -- A round of the flush after `drain`.
  unfoldable pub flushed : (Loop → Loop) → ℕ → RaopTcp → Loop × Option ℕ → Loop
  flushed more deadline ch (l, some e) = l
  flushed more deadline ch (l, none) =
      if not (unsent (tcp_slot ch l))
      then l
      else let l' = ask Sys.clock l in
        more (ask (poll_one (tcp_slot ch l').fd true (wait_ms (reply os l').time deadline)) l')

  unfoldable pub flush_loop : ℕ → ℕ → RaopTcp → Loop → Loop
  unfolding flushed drain
  flush_loop zero deadline ch l = l
  flush_loop (suc fuel) deadline ch l = elim (unsent (tcp_slot ch l)) [
    | true ↦
        let l' = ask Sys.clock l in
        elim (ltb (reply os l').time deadline) [
          | true ↦ flushed (flush_loop fuel deadline ch) deadline ch (drain os ch l')
          | false ↦ l'
        ]
    | false ↦ l
  ]

  -- Whether the wait for the peer's FIN goes on after `recv`.
  abbrev pub keeps_draining : Answer → Bool
  keeps_draining a = elim a.count [ none ↦ os.would_block a.errno | some n ↦ not (n == 0) ]

  unfoldable pub linger_loop : ℕ → ℕ → RaopTcp → Loop → Loop
  linger_loop zero deadline ch l = l
  linger_loop (suc fuel) deadline ch l =
      let l1 = ask Sys.clock l in
      let left = (deadline - (reply os l1).time) / 1000000 in
      elim (left == 0) [
        | true ↦ l1
        | false ↦
            let l2 = ask (poll_one (tcp_slot ch l1).fd false left) l1 in
            elim (is_positive (reply os l2).count) [
              | false ↦ l2
              | true ↦
                  let l3 = ask (Sys.recv (tcp_slot ch l2).fd 1024) l2 in
                  elim (keeps_draining (reply os l3)) [
                    | true ↦ linger_loop fuel deadline ch l3
                    | false ↦ l3
                  ]
            ]
      ]

  -- The graceful part of `tcpClose`: 500 ms for the queued bytes, 300 ms for the peer's FIN.
  unfoldable pub shut_down : RaopTcp → Loop → Loop
  unfolding flush_loop linger_loop
  shut_down ch l =
      let l1 = ask Sys.clock l in
      let l2 = flush_loop rounds ((reply os l1).time + 500 * 1000000) ch l1 in
      let l3 = ask (Sys.shutdown (tcp_slot ch l2).fd) l2 in
      let l4 = ask Sys.clock l3 in linger_loop rounds ((reply os l4).time + 300 * 1000000) ch l4

  -- `tcpClose`
  unfoldable pub tcp_close : RaopTcp → Bool → Loop → Loop
  unfolding shut_down close_tcp
  tcp_close ch flush l =
      let s = tcp_slot ch l in
      if is_bad s.fd
      then set_tcp ch (reset_slot s) l
      else if flush && (s.connected && is_none s.send_failed)
      then close_tcp ch (shut_down ch l)
      else close_tcp ch l

  abbrev pub drop_udp : ℕ → Loop → Loop × ℕ
  drop_udp fd l = (ask (Sys.close (some fd)) l, 0)

  -- After `bind`.
  unfoldable pub bound : RaopUdp → ℕ → Loop → Loop × ℕ
  bound u fd l =
      if not (is_zero (reply os l).count)
      then drop_udp fd l
      else let l' = ask (Sys.getsockname (some fd)) (ask (Sys.set_options (some fd)) l) in
        let port = (endpoint_of (reply os l')).port in
        if port == 0 then drop_udp fd l' else (open_udp u (some fd) l', port)

  unfoldable pub bind_socket : RaopUdp → Loop → Option ℕ → Loop × ℕ
  unfolding bound
  bind_socket u l none = (l, 0)
  bind_socket u l (some fd) =
      bound u fd (ask (Sys.bind (some fd)) (ask (Sys.set_options (some fd)) l))

  -- `udpBind`: the bound port, or 0.
  unfoldable pub udp_bind : RaopUdp → Loop → Loop × ℕ
  unfolding bind_socket renew_udp
  udp_bind u l =
      let l' = ask (Sys.socket false) (renew_udp u l) in bind_socket u l' (reply os l').count

  -- `udpSend`
  unfoldable pub udp_send : RaopUdp → RaopEndpoint → Bytes → Loop → Loop
  udp_send u to bytes l =
      if is_bad (udp_slot u l).fd || not (os.valid_ip to.ip)
      then l
      else ask (Sys.sendto (udp_slot u l).fd to bytes) l

-- `udpClose`
unfoldable pub udp_close : RaopUdp → Loop → Loop
unfolding close_udp
udp_close u l = close_udp u l
