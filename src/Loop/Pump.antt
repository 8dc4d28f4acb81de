-- ===== src/Loop/Pump.antt =====
-- `RaopLoop::pump` and `run`, src/raop_loop.cpp.
use airplay2_sender_cpp.Base.{
  ℕ, zero, suc, ◌+◌, ◌-◌, ◌/◌, min, Bool, true, false, not, ◌&&◌, ◌||◌, List, [], ◌∷◌, ◌++◌, map,
  Option, none, some, Bytes, codes, leb, ◌==◌, if◌then◌else◌,
}
use airplay2_sender_cpp.Sender.Action.{RaopTcp, RaopUdp}
use airplay2_sender_cpp.Sender.Calls.{Call}
use airplay2_sender_cpp.Loop.System.{
  Sock, Sys, Os, PollFd, Revents, Answer, TcpSlot, UdpSlot, Loop, sock_eq, tcp_slot, udp_slot,
  set_tcp, ask, reply, is_bad,
}
use airplay2_sender_cpp.Loop.Slots.{close_tcp, unsent, drain}
use airplay2_sender_cpp.Loop.Io.{is_zero, endpoint_of}
use airplay2_sender_cpp.Loop.Client.{Client, Host, deliver}

-- `Entry`, a live socket of the snapshot, for the two kinds.
pub data Entry : Type 0 where
  tcp_entry : RaopTcp → Sock → ℕ → Entry
  udp_entry : RaopUdp → Sock → ℕ → Entry

-- `events` of a TCP slot.
abbrev pub tcp_interest : TcpSlot → PollFd
tcp_interest s = record {
  fd = s.fd;
  wants_in = not s.connecting;
  wants_out = s.connecting || unsent s;
}

abbrev pub tcp_polled : RaopTcp → TcpSlot → List (Entry × PollFd)
tcp_polled ch s = if is_bad s.fd then [] else (Entry.tcp_entry ch s.fd s.gen, tcp_interest s) ∷ []

abbrev pub udp_polled : RaopUdp → UdpSlot → List (Entry × PollFd)
udp_polled u s =
    if is_bad s.fd
    then []
    else (Entry.udp_entry u s.fd s.gen, record { fd = s.fd; wants_in = true; wants_out = false })
      ∷ []

-- The snapshot of the live sockets.
unfoldable pub snapshot : Loop → List (Entry × PollFd)
snapshot l =
    tcp_polled RaopTcp.control l.tcp_control
    ++ (tcp_polled RaopTcp.event l.tcp_event
        ++ (udp_polled RaopUdp.audio l.udp_audio
            ++ (udp_polled RaopUdp.control l.udp_control
                ++ udp_polled RaopUdp.timing l.udp_timing)))

-- The wait in milliseconds, rounded up.
abbrev pub capped_wait : ℕ → ℕ → ℕ → ℕ
capped_wait max_wait now deadline =
    min max_wait (if leb deadline now then 0 else (deadline - now + 999000) / 1000000)

abbrev pub any_event : Revents → Bool
any_event re = re.poll_in || (re.poll_out || (re.poll_err || (re.poll_hup || re.poll_nval)))

abbrev pub same_tcp : Sock → ℕ → TcpSlot → Bool
same_tcp fd gen s = sock_eq s.fd fd && s.gen == gen

abbrev pub same_udp : Sock → ℕ → UdpSlot → Bool
same_udp fd gen u = sock_eq u.fd fd && u.gen == gen

-- `socketError`: `SO_ERROR`, 0 if the call fails.
abbrev pub so_error : Answer → ℕ
so_error a = if is_zero a.count then a.errno else 0

-- What a program does with the two: a call of the sender, or a round of the loop.
pub data Use : Type 0 where
  request : Call → Use
  round : ℕ → Use

module _ (os : Os) (rounds : ℕ) {S : Type 0} (c : Client S) where
  abbrev pub close_and : RaopTcp → Call → Host S → Host S
  close_and ch call h = deliver os rounds c call (record h { loop = close_tcp ch h.loop })

  abbrev pub asked : Sys → Host S → Host S
  asked sys h = record h { loop = ask sys h.loop }

  -- A parked notification of one slot.
  abbrev pub parked : RaopTcp → Host S → Option Bytes → Option Bytes → Host S
  parked ch h (some why) send_failed = close_and ch (Call.connect_failed_call ch why) h
  parked ch h none (some why) = close_and ch (Call.closed_call ch why) h
  parked ch h none none = h

  unfoldable pub deliver_parked : RaopTcp → Host S → Host S
  deliver_parked ch h = let s = tcp_slot ch h.loop in parked ch h s.failed_to_start s.send_failed

  -- `waitMs`, which reads the clock if the sender has a deadline.
  abbrev pub wait_ms : ℕ → Host S → Option ℕ → Host S × ℕ
  wait_ms max_wait h none = (h, max_wait)
  wait_ms max_wait h (some deadline) =
      let h' = asked Sys.clock h in (h', capped_wait max_wait (reply os h'.loop).time deadline)

  -- After `recvfrom`.
  unfoldable pub received_from :
      (Host S → Host S) → RaopUdp → Sock → Host S → Answer → Option ℕ → Host S
  received_from more u fd h a none =
      if os.would_block a.errno then h else asked (Sys.get_error (udp_slot u h.loop).fd) h
  received_from more u fd h a (some zero) = more h
  received_from more u fd h a (some (suc n)) =
      let h' = deliver os rounds c (Call.datagram_call u a.bytes a.endpoint) h in
      if same_udp fd (udp_slot u h.loop).gen (udp_slot u h'.loop) then more h' else h'

  -- The datagrams of one socket, 64 at most.
  unfoldable pub burst_loop : ℕ → RaopUdp → Sock → Host S → Host S
  unfolding received_from
  burst_loop zero u fd h = h
  burst_loop (suc fuel) u fd h =
      let h' = asked (Sys.recvfrom (udp_slot u h.loop).fd 4096) h in
      let a = reply os h'.loop in received_from (burst_loop fuel u fd) u fd h' a a.count

  unfoldable pub serve_udp : RaopUdp → Sock → ℕ → Revents → Host S → Host S
  unfolding burst_loop
  serve_udp u fd gen re h =
      if not (same_udp fd gen (udp_slot u h.loop))
      then h
      else if not (re.poll_in || (re.poll_err || re.poll_hup))
      then h
      else burst_loop 64 u fd h

  -- After `drain`: a fatal error closes the slot and is reported, otherwise `more` goes on.
  abbrev pub after_drain : (Host S → Host S) → RaopTcp → Host S → Loop × Option ℕ → Host S
  after_drain more ch h (l, none) = more (record h { loop = l })
  after_drain more ch h (l, some e) =
      close_and ch (Call.closed_call ch (codes "send failed: " ++ os.error_text e))
        (record h { loop = l })

  abbrev pub mark_connected : RaopTcp → Loop → Loop
  mark_connected ch l =
      set_tcp ch (record (tcp_slot ch l) { connecting = false; connected = true }) l

  -- The end of a connect that has succeeded.
  unfoldable pub connected : RaopTcp → Sock → Host S → Host S
  connected ch fd h =
      let h1 = record h { loop = mark_connected ch h.loop } in
      let h2 = asked (Sys.getsockname (tcp_slot ch h1.loop).fd) h1 in
      let h3 = asked (Sys.getpeername (tcp_slot ch h2.loop).fd) h2 in
      let local = endpoint_of (reply os h2.loop) in
      let peer = endpoint_of (reply os h3.loop) in
      let h4 = deliver os rounds c (Call.connected_call ch local.ip peer.ip) h3 in
      if not (same_tcp fd (tcp_slot ch h3.loop).gen (tcp_slot ch h4.loop))
      then h4
      else after_drain (λ h5. h5) ch h4 (drain os ch h4.loop)

  abbrev pub error_or : Bytes → ℕ → Bytes
  error_or def err = if err == 0 then def else os.error_text err

  unfoldable pub serve_connecting : RaopTcp → Sock → Revents → Host S → Host S
  unfolding connected
  serve_connecting ch fd re h =
      if not (re.poll_out || (re.poll_err || re.poll_hup))
      then h
      else let h1 = asked (Sys.get_error (tcp_slot ch h.loop).fd) h in
        let err = so_error (reply os h1.loop) in
        if not (err == 0) || (re.poll_err || re.poll_hup)
        then close_and ch (Call.connect_failed_call ch (error_or (codes "connection failed") err))
            h1
        else connected ch fd h1

  -- After `recv`.
  unfoldable pub received : (Host S → Host S) → RaopTcp → Sock → Host S → Answer → Option ℕ → Host S
  received more ch fd h a none =
      if os.would_block a.errno
      then h
      else close_and ch (Call.closed_call ch (os.error_text a.errno)) h
  received more ch fd h a (some zero) = close_and ch (Call.closed_call ch []) h
  received more ch fd h a (some (suc n)) =
      let h' = deliver os rounds c (Call.data_call ch a.bytes) h in
      if same_tcp fd (tcp_slot ch h.loop).gen (tcp_slot ch h'.loop) then more h' else h'

  -- The received bytes of one connection, for a number of rounds.
  unfoldable pub recv_loop : ℕ → RaopTcp → Sock → Host S → Host S
  unfolding received
  recv_loop zero ch fd h = h
  recv_loop (suc fuel) ch fd h =
      let h' = asked (Sys.recv (tcp_slot ch h.loop).fd 16384) h in
      let a = reply os h'.loop in received (recv_loop fuel ch fd) ch fd h' a a.count

  unfoldable pub serve_readable : RaopTcp → Sock → Revents → Host S → Host S
  unfolding recv_loop
  serve_readable ch fd re h = if re.poll_in || re.poll_hup then recv_loop rounds ch fd h else h

  abbrev pub socket_failed : RaopTcp → Host S → Host S
  socket_failed ch h =
      close_and ch
        (Call.closed_call ch (error_or (codes "socket error") (so_error (reply os h.loop)))) h

  unfoldable pub serve_connected : RaopTcp → Sock → Revents → Host S → Host S
  unfolding serve_readable
  serve_connected ch fd re h =
      if re.poll_err || re.poll_nval
      then socket_failed ch (asked (Sys.get_error (tcp_slot ch h.loop).fd) h)
      else if re.poll_out
      then after_drain (serve_readable ch fd re) ch h (drain os ch h.loop)
      else serve_readable ch fd re h

  unfoldable pub serve_tcp : RaopTcp → Sock → ℕ → Revents → Host S → Host S
  unfolding serve_connecting serve_connected
  serve_tcp ch fd gen re h =
      if not (same_tcp fd gen (tcp_slot ch h.loop))
      then h
      else if (tcp_slot ch h.loop).connecting
      then serve_connecting ch fd re h
      else serve_connected ch fd re h

  unfoldable pub serve : Entry → Revents → Host S → Host S
  unfolding serve_tcp serve_udp
  serve (Entry.tcp_entry ch fd gen) re h = serve_tcp ch fd gen re h
  serve (Entry.udp_entry u fd gen) re h = serve_udp u fd gen re h

  -- The loop over the entries and their events.
  unfoldable pub serve_all : List (Entry × PollFd) → List Revents → Host S → Host S
  unfolding serve
  serve_all ((e, p) ∷ entries) (re ∷ events) h =
      serve_all entries events (if any_event re then serve e re h else h)
  serve_all entries events h = h

  -- After `poll`; without an event there is nothing to serve.
  abbrev pub polled : List (Entry × PollFd) → Host S → List Revents → Option ℕ → Host S
  polled entries h events none = h
  polled entries h events (some zero) = h
  polled entries h events (some (suc n)) = serve_all entries events h

  -- The wait and what follows from it.
  unfoldable pub await : List (Entry × PollFd) → ℕ → Host S → Host S
  unfolding serve_all
  await [] ms h = if ms == 0 then h else asked (Sys.sleep ms) h
  await ((e, p) ∷ entries) ms h =
      let h' = asked (Sys.poll (p ∷ map (λ x. x.1) entries) ms) h in
      let a = reply os h'.loop in polled ((e, p) ∷ entries) h' a.revents a.count

  -- `pump`, with the longest wait in milliseconds.
  unfoldable pub pump : ℕ → Host S → Host S
  unfolding deliver_parked await snapshot
  pump max_wait h =
      let h1 = deliver_parked RaopTcp.event (deliver_parked RaopTcp.control h) in
      let (h2, ms) = wait_ms max_wait h1 (c.deadline h1.client) in
      deliver os rounds c Call.tick_call (await (snapshot h2.loop) ms h2)

  -- `run`: a number of rounds, after which another thread has asked it to stop.
  unfoldable pub run : ℕ → Host S → Host S
  unfolding pump
  run zero h = h
  run (suc n) h = run n (pump 50 h)

  unfoldable pub session : List Use → Host S → Host S
  unfolding deliver pump
  session [] h = h
  session (Use.request k ∷ uses) h = session uses (deliver os rounds c k h)
  session (Use.round ms ∷ uses) h = session uses (pump ms h)
