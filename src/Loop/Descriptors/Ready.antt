-- ===== src/Loop/Descriptors/Ready.antt =====
-- What src/raop_loop.cpp does with a ready socket keeps account of the descriptors.
use airplay2_sender_cpp.Loop.Descriptors.Delivery.{
  deliver-Kept, close_and-IsSound, asked-Kept, keep, Kept, kept, opened, Serving, asked-Serving,
}
use airplay2_sender_cpp.Base.{
  ℕ, zero, suc, ◌≡◌, refl, ap, ◌∙◌, Bool, true, false, not, ◌&&◌, Option, none, some, ◌==◌, arith,
  if-both, if-split,
}
use airplay2_sender_cpp.Sender.Action.{RaopTcp, RaopUdp}
use airplay2_sender_cpp.Sender.Calls.{Call}
use airplay2_sender_cpp.Loop.System.{
  Sock, Sys, Os, Revents, Answer, Loop, sock_eq, tcp_slot, udp_slot, is_bad, reply,
}
use airplay2_sender_cpp.Loop.Slots.{drain}
use airplay2_sender_cpp.Loop.Client.{Client, Host, deliver}
use airplay2_sender_cpp.Loop.Pump.{
  Entry, same_tcp, same_udp, asked, burst_loop, serve_udp, after_drain, mark_connected, connected,
  serve_connecting, recv_loop, serve_readable, serve_connected, serve_tcp, serve, received,
  received_from,
}
use airplay2_sender_cpp.Loop.Io.{endpoint_of}
use airplay2_sender_cpp.Loop.Descriptors.{IsOpenUdp}
use airplay2_sender_cpp.Loop.Descriptors.Primitives.{slot-ask_udp, IsOpenUdp-Live}
use airplay2_sender_cpp.Loop.Descriptors.Slots.{
  IsServed, set_tcp-IsServed, served-Live, drain-IsServed,
}

-- A slot that still has the socket of an entry is open.
same_open :
    (s fd : Sock) (b : Bool) → (sock_eq s fd && b) ≡ true → is_bad fd ≡ false → is_bad s ≡ false
same_open none none b e k = k
same_open none (some x) b e k = ground arith
same_open (some x) fd b e k = refl

not-false : (b : Bool) → not b ≡ false → b ≡ true
not-false true e = refl
not-false false e = cc

-- The entry names a socket.
abbrev pub IsNamed : Entry → Type 0
IsNamed (Entry.tcp_entry ch fd gen) = is_bad fd ≡ false
IsNamed (Entry.udp_entry u fd gen) = is_bad fd ≡ false

module _ (os : Os) (rounds : ℕ) where
  module _ {S : Type 0} (c : Client S) where
    pub received_from-IsSound :
        (more : Host S → Host S) (u : RaopUdp) (fd : Sock) (h : Host S) (a : Answer) (n : Option ℕ)
        → ((m : Host S) → IsOpenUdp os u m.loop → Kept os rounds c m → Kept os rounds c (more m))
        → is_bad fd ≡ false
        → IsOpenUdp os u h.loop
        → Kept os rounds c h
        → Kept os rounds c (received_from os rounds c more u fd h a n)
    unfolding received_from
    received_from-IsSound more u fd h a none f e k o =
        if-both (Kept os rounds c) (os.would_block a.errno) _ _ o (
          asked-Kept os rounds c (Sys.get_error (udp_slot u h.loop).fd) h refl
            (IsOpenUdp-Live os u none h.loop o.sound k) o)
    received_from-IsSound more u fd h a (some zero) f e k o = f h k o
    received_from-IsSound more u fd h a (some (suc n)) f e k o =
        let h' = deliver os rounds c (Call.datagram_call u a.bytes a.endpoint) h in
        let o' = deliver-Kept os rounds c (Call.datagram_call u a.bytes a.endpoint) h o in
        if-split (Kept os rounds c) (same_udp fd (udp_slot u h.loop).gen (udp_slot u h'.loop)) _ _
          (λ j. f h' (same_open (udp_slot u h'.loop).fd fd _ j e) o') (λ j. o')

    pub burst_loop-IsSound :
        (fuel : ℕ) (u : RaopUdp) (fd : Sock) (h : Host S)
        → is_bad fd ≡ false
        → IsOpenUdp os u h.loop
        → Kept os rounds c h
        → Kept os rounds c (burst_loop os rounds c fuel u fd h)
    unfolding burst_loop
    burst_loop-IsSound zero u fd h e k o = o
    burst_loop-IsSound (suc fuel) u fd h e k o =
        let sys = Sys.recvfrom (udp_slot u h.loop).fd 4096 in
        received_from-IsSound (burst_loop os rounds c fuel u fd) u fd (asked os rounds c sys h)
          (reply os (asked os rounds c sys h).loop) _
          (λ m k' o'. burst_loop-IsSound fuel u fd m e k' o') e
          (ap (λ s. is_bad s.fd) (slot-ask_udp u sys h.loop) ∙ k)
          (asked-Kept os rounds c sys h refl (IsOpenUdp-Live os u none h.loop o.sound k) o)

    pub serve_udp-IsSound :
        (u : RaopUdp) (fd : Sock) (gen : ℕ) (re : Revents) (h : Host S)
        → is_bad fd ≡ false
        → Kept os rounds c h
        → Kept os rounds c (serve_udp os rounds c u fd gen re h)
    unfolding serve_udp
    serve_udp-IsSound u fd gen re h e o =
        if-split (Kept os rounds c) (not (same_udp fd gen (udp_slot u h.loop))) _ _ (λ j. o)
          (λ j. if-both (Kept os rounds c) _ _ _ o (
            burst_loop-IsSound 64 u fd h e
              (same_open (udp_slot u h.loop).fd fd ((udp_slot u h.loop).gen == gen) (not-false _ j)
                e)
              o))

    pub after_drain-IsSound :
        (more : Host S → Host S) (ch : RaopTcp) (h : Host S) (r : Loop × Option ℕ)
        → ((m : Host S) → Serving os rounds c ch m → Kept os rounds c (more m))
        → IsServed os ch r.0
        → Kept os rounds c (after_drain os rounds c more ch h r)
    after_drain-IsSound more ch h (l, none) f o = f _ (record { served = o })
    after_drain-IsSound more ch h (l, some e) f o =
        close_and-IsSound os rounds c ch _ _ (keep os rounds c o.0)

    pub connected-IsSound :
        (ch : RaopTcp) (fd : Sock) (h : Host S)
        → is_bad fd ≡ false
        → Serving os rounds c ch h
        → Kept os rounds c (connected os rounds c ch fd h)
    unfolding connected
    connected-IsSound ch fd h e o =
        let h1 = record h { loop = mark_connected os rounds c ch h.loop } in
        let o1 : Serving os rounds c ch h1 = record {
          served = set_tcp-IsServed os ch _ h.loop refl o.served;
        } in
        let sys1 = Sys.getsockname (tcp_slot ch h1.loop).fd in
        let h2 = asked os rounds c sys1 h1 in
        let o2 =
          asked-Serving os rounds c sys1 ch h1 refl (served-Live os ch h1.loop o1.served) o1 in
        let sys2 = Sys.getpeername (tcp_slot ch h2.loop).fd in
        let h3 = asked os rounds c sys2 h2 in
        let o3 =
          asked-Serving os rounds c sys2 ch h2 refl (served-Live os ch h2.loop o2.served) o2 in
        let call =
          Call.connected_call ch (endpoint_of (reply os h2.loop)).ip
            (endpoint_of (reply os h3.loop)).ip in
        let h4 = deliver os rounds c call h3 in
        let o4 = deliver-Kept os rounds c call h3 (kept os rounds c o3) in
        if-split (Kept os rounds c)
          (not (same_tcp fd (tcp_slot ch h3.loop).gen (tcp_slot ch h4.loop))) _ _ (λ j. o4)
          (λ j.
            after_drain-IsSound (λ h5. h5) ch h4 (drain os ch h4.loop) (λ m p. kept os rounds c p)
              (drain-IsServed os ch h4.loop
                (o4.sound, same_open (tcp_slot ch h4.loop).fd fd _ (not-false _ j) e)))

    pub serve_connecting-IsSound :
        (ch : RaopTcp) (fd : Sock) (re : Revents) (h : Host S)
        → is_bad fd ≡ false
        → Serving os rounds c ch h
        → Kept os rounds c (serve_connecting os rounds c ch fd re h)
    unfolding serve_connecting
    serve_connecting-IsSound ch fd re h e o =
        let sys = Sys.get_error (tcp_slot ch h.loop).fd in
        let o1 = asked-Serving os rounds c sys ch h refl (served-Live os ch h.loop o.served) o in
        if-both (Kept os rounds c) _ _ _ (kept os rounds c o) (
          if-both (Kept os rounds c) _ _ _
            (close_and-IsSound os rounds c ch _ _ (kept os rounds c o1))
            (connected-IsSound ch fd _ e o1))

    pub received-IsSound :
        (more : Host S → Host S) (ch : RaopTcp) (fd : Sock) (h : Host S) (a : Answer) (n : Option ℕ)
        → ((m : Host S) → Serving os rounds c ch m → Kept os rounds c (more m))
        → is_bad fd ≡ false
        → Serving os rounds c ch h
        → Kept os rounds c (received os rounds c more ch fd h a n)
    unfolding received
    received-IsSound more ch fd h a none f e o =
        if-both (Kept os rounds c) (os.would_block a.errno) _ _ (kept os rounds c o)
          (close_and-IsSound os rounds c ch _ h (kept os rounds c o))
    received-IsSound more ch fd h a (some zero) f e o =
        close_and-IsSound os rounds c ch _ h (kept os rounds c o)
    received-IsSound more ch fd h a (some (suc n)) f e o =
        let h' = deliver os rounds c (Call.data_call ch a.bytes) h in
        let o' = deliver-Kept os rounds c (Call.data_call ch a.bytes) h (kept os rounds c o) in
        if-split (Kept os rounds c) (same_tcp fd (tcp_slot ch h.loop).gen (tcp_slot ch h'.loop)) _ _
          (λ j. f h' (opened os rounds c o' (same_open (tcp_slot ch h'.loop).fd fd _ j e)))
          (λ j. o')

    pub recv_loop-IsSound :
        (fuel : ℕ) (ch : RaopTcp) (fd : Sock) (h : Host S)
        → is_bad fd ≡ false
        → Serving os rounds c ch h
        → Kept os rounds c (recv_loop os rounds c fuel ch fd h)
    unfolding recv_loop
    recv_loop-IsSound zero ch fd h e o = kept os rounds c o
    recv_loop-IsSound (suc fuel) ch fd h e o =
        let sys = Sys.recv (tcp_slot ch h.loop).fd 16384 in
        received-IsSound (recv_loop os rounds c fuel ch fd) ch fd (asked os rounds c sys h)
          (reply os (asked os rounds c sys h).loop) _ (λ m p. recv_loop-IsSound fuel ch fd m e p) e
          (asked-Serving os rounds c sys ch h refl (served-Live os ch h.loop o.served) o)

    pub serve_readable-IsSound :
        (ch : RaopTcp) (fd : Sock) (re : Revents) (h : Host S)
        → is_bad fd ≡ false
        → Serving os rounds c ch h
        → Kept os rounds c (serve_readable os rounds c ch fd re h)
    unfolding serve_readable
    serve_readable-IsSound ch fd re h e o =
        if-both (Kept os rounds c) _ _ _ (recv_loop-IsSound rounds ch fd h e o) (kept os rounds c o)

    pub serve_connected-IsSound :
        (ch : RaopTcp) (fd : Sock) (re : Revents) (h : Host S)
        → is_bad fd ≡ false
        → Serving os rounds c ch h
        → Kept os rounds c (serve_connected os rounds c ch fd re h)
    unfolding serve_connected
    serve_connected-IsSound ch fd re h e o =
        let sys = Sys.get_error (tcp_slot ch h.loop).fd in
        let o1 = asked-Serving os rounds c sys ch h refl (served-Live os ch h.loop o.served) o in
        if-both (Kept os rounds c) _ _ _
          (close_and-IsSound os rounds c ch _ _ (kept os rounds c o1))
          (if-both (Kept os rounds c) _ _ _
            (after_drain-IsSound (serve_readable os rounds c ch fd re) ch h (drain os ch h.loop)
              (λ m p. serve_readable-IsSound ch fd re m e p) (drain-IsServed os ch h.loop o.served))
            (serve_readable-IsSound ch fd re h e o))

    pub serve_tcp-IsSound :
        (ch : RaopTcp) (fd : Sock) (gen : ℕ) (re : Revents) (h : Host S)
        → is_bad fd ≡ false
        → Kept os rounds c h
        → Kept os rounds c (serve_tcp os rounds c ch fd gen re h)
    unfolding serve_tcp
    serve_tcp-IsSound ch fd gen re h e o =
        if-split (Kept os rounds c) (not (same_tcp fd gen (tcp_slot ch h.loop))) _ _ (λ j. o)
          (λ j.
            let k =
              same_open (tcp_slot ch h.loop).fd fd ((tcp_slot ch h.loop).gen == gen) (not-false _ j)
                e in
            if-both (Kept os rounds c) _ _ _
              (serve_connecting-IsSound ch fd re h e (opened os rounds c o k))
              (serve_connected-IsSound ch fd re h e (opened os rounds c o k)))

    pub serve-IsSound :
        (e : Entry) (re : Revents) (h : Host S)
        → IsNamed e
        → Kept os rounds c h
        → Kept os rounds c (serve os rounds c e re h)
    unfolding serve
    serve-IsSound (Entry.tcp_entry ch fd gen) re h e o = serve_tcp-IsSound ch fd gen re h e o
    serve-IsSound (Entry.udp_entry u fd gen) re h e o = serve_udp-IsSound u fd gen re h e o
