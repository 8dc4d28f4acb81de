-- ===== src/Loop/Descriptors/Pump.antt =====
-- `RaopLoop::pump` of src/raop_loop.cpp keeps account of its descriptors, whatever the sender does.
use airplay2_sender_cpp.Loop.Descriptors.Delivery.{
  deliver-Kept, deliver_parked-IsSound, wait_ms-IsSound, asked-Kept, keep, Kept,
}
use airplay2_sender_cpp.Loop.Descriptors.Ready.{IsNamed, serve-IsSound}
use airplay2_sender_cpp.Base.{
  ℕ, zero, suc, refl, List, [], ◌∷◌, ◌++◌, map, Option, none, some, ◌==◌, if-both, if-split,
}
use airplay2_sender_cpp.Sender.Action.{RaopTcp, RaopUdp}
use airplay2_sender_cpp.Sender.Calls.{Call}
use airplay2_sender_cpp.Loop.System.{Sys, Os, PollFd, Revents, Loop, tcp_slot, udp_slot, is_bad}
use airplay2_sender_cpp.Loop.Client.{Client, Host, deliver}
use airplay2_sender_cpp.Loop.Pump.{
  Entry, tcp_polled, udp_polled, snapshot, deliver_parked, wait_ms, serve_all, polled, await, pump,
  any_event,
}
use airplay2_sender_cpp.Loop.Descriptors.{AllFds, Live, IsSound}
use airplay2_sender_cpp.Loop.Descriptors.Primitives.{IsOpenUdp-Live}
use airplay2_sender_cpp.Loop.Descriptors.Slots.{served-Live}

-- A slot that still has the socket of an entry is open.
module _ (os : Os) (rounds : ℕ) where
  -- Every entry names a socket, and what is polled is live.
  abbrev Polls : Loop → List (Entry × PollFd) → Type 0
  Polls l [] = Unit
  Polls l ((e, p) ∷ entries) = IsNamed e × Live os l.log p.fd × Polls l entries

  Polls-append :
      (l : Loop) (xs ys : List (Entry × PollFd)) → Polls l xs → Polls l ys → Polls l (xs ++ ys)
  Polls-append l [] ys p q = q
  Polls-append l ((e, f) ∷ xs) ys (n, v, p) q = (n, v, Polls-append l xs ys p q)

  Polls-AllFds :
      (l : Loop) (xs : List (Entry × PollFd))
      → Polls l xs
      → AllFds (Live os l.log) (map (λ x. x.1) xs)
  Polls-AllFds l [] p = tt
  Polls-AllFds l ((e, f) ∷ xs) (n, v, p) = (v, Polls-AllFds l xs p)

  tcp_polled-Polls :
      (ch : RaopTcp) (l : Loop) → IsSound os l → Polls l (tcp_polled ch (tcp_slot ch l))
  tcp_polled-Polls ch l o =
      if-split (Polls l) (is_bad (tcp_slot ch l).fd) _ _ (λ e. tt)
        (λ e. (e, served-Live os ch l (o, e), tt))

  udp_polled-Polls : (u : RaopUdp) (l : Loop) → IsSound os l → Polls l (udp_polled u (udp_slot u l))
  udp_polled-Polls u l o =
      if-split (Polls l) (is_bad (udp_slot u l).fd) _ _ (λ e. tt)
        (λ e. (e, IsOpenUdp-Live os u none l o e, tt))

  snapshot-Polls : (l : Loop) → IsSound os l → Polls l (snapshot l)
  unfolding snapshot
  snapshot-Polls l o =
      Polls-append l (tcp_polled RaopTcp.control l.tcp_control) _
        (tcp_polled-Polls RaopTcp.control l o)
        (Polls-append l (tcp_polled RaopTcp.event l.tcp_event) _
          (tcp_polled-Polls RaopTcp.event l o)
          (Polls-append l (udp_polled RaopUdp.audio l.udp_audio) _
            (udp_polled-Polls RaopUdp.audio l o)
            (Polls-append l (udp_polled RaopUdp.control l.udp_control) _
              (udp_polled-Polls RaopUdp.control l o) (udp_polled-Polls RaopUdp.timing l o))))

  module _ {S : Type 0} (c : Client S) where
    serve_all-IsSound :
        (entries : List (Entry × PollFd)) (events : List Revents) (l : Loop) (h : Host S)
        → Polls l entries
        → Kept os rounds c h
        → Kept os rounds c (serve_all os rounds c entries events h)
    unfolding serve_all
    serve_all-IsSound [] events l h p o = o
    serve_all-IsSound ((e, f) ∷ entries) [] l h p o = o
    serve_all-IsSound ((e, f) ∷ entries) (re ∷ events) l h (n, v, p) o =
        serve_all-IsSound entries events l _ p
          (if-both (Kept os rounds c) (any_event re) _ _ (serve-IsSound os rounds c e re h n o) o)

    polled-IsSound :
        (entries : List (Entry × PollFd)) (events : List Revents) (l : Loop) (h : Host S)
        (n : Option ℕ)
        → Polls l entries
        → Kept os rounds c h
        → Kept os rounds c (polled os rounds c entries h events n)
    polled-IsSound entries events l h none p o = o
    polled-IsSound entries events l h (some zero) p o = o
    polled-IsSound entries events l h (some (suc n)) p o = serve_all-IsSound entries events l h p o

    await-IsSound :
        (entries : List (Entry × PollFd)) (ms : ℕ) (h : Host S)
        → Polls h.loop entries
        → Kept os rounds c h
        → Kept os rounds c (await os rounds c entries ms h)
    unfolding await
    await-IsSound [] ms h p o =
        if-both (Kept os rounds c) (ms == 0) _ _ o
          (asked-Kept os rounds c (Sys.sleep ms) h refl tt o)
    await-IsSound ((e, f) ∷ entries) ms h (n, v, p) o =
        polled-IsSound ((e, f) ∷ entries) _ h.loop _ _ (n, v, p)
          (asked-Kept os rounds c _ h refl (v, Polls-AllFds h.loop entries p) o)

    pump-Kept :
        (max_wait : ℕ) (h : Host S)
        → Kept os rounds c h
        → Kept os rounds c (pump os rounds c max_wait h)
    unfolding pump
    pump-Kept max_wait h o =
        let h0 = deliver_parked os rounds c RaopTcp.control h in
        let h1 = deliver_parked os rounds c RaopTcp.event h0 in
        let o1 =
          deliver_parked-IsSound os rounds c RaopTcp.event h0
            (deliver_parked-IsSound os rounds c RaopTcp.control h o) in
        let w = wait_ms os rounds c max_wait h1 (c.deadline h1.client) in
        let o2 = wait_ms-IsSound os rounds c max_wait h1 (c.deadline h1.client) o1 in
        deliver-Kept os rounds c Call.tick_call _
          (await-IsSound (snapshot w.0.loop) w.1 w.0 (snapshot-Polls w.0.loop o2.sound) o2)

    pub deliver-IsSound :
        (call : Call) (h : Host S)
        → IsSound os h.loop
        → IsSound os (deliver os rounds c call h).loop
    deliver-IsSound call h o = (deliver-Kept os rounds c call h (keep os rounds c o)).sound

    pub pump-IsSound :
        (max_wait : ℕ) (h : Host S)
        → IsSound os h.loop
        → IsSound os (pump os rounds c max_wait h).loop
    pump-IsSound max_wait h o = (pump-Kept max_wait h (keep os rounds c o)).sound
