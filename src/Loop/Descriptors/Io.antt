-- ===== src/Loop/Descriptors/Io.antt =====
-- The calls of `RaopIo` in src/raop_loop.cpp keep account of their descriptors.
use airplay2_sender_cpp.Base.{
  ℕ, zero, suc, ◌+◌, ◌-◌, ◌*◌, ◌/◌, ◌≡◌, refl, ap, ◌∙◌, Bool, true, false, not, ◌||◌, Option, none,
  some, Bytes, length, ◌==◌, arith, if-both, if-split, elim-split, ltb,
}
use airplay2_sender_cpp.Sender.Action.{RaopTcp, RaopUdp, RaopEndpoint}
use airplay2_sender_cpp.Loop.System.{Sys, Os, Loop, tcp_slot, udp_slot, ask, is_bad, reply}
use airplay2_sender_cpp.Loop.Slots.{drain, unsent}
use airplay2_sender_cpp.Loop.Io.{
  renew_tcp, renew_udp, connect_done, connect_socket, connect_resolved, tcp_connect, tcp_send,
  tcp_close, udp_bind, udp_send, udp_close, is_none, park_error, queue_bytes, flushed, flush_loop,
  linger_loop, shut_down, bound, bind_socket, keeps_draining, is_positive, wait_ms, poll_one,
}
use airplay2_sender_cpp.Loop.Descriptors.{Owns, IsSound}
use airplay2_sender_cpp.Loop.Descriptors.Primitives.{
  slot-ask, slot-ask_udp, IsOpenUdp-Live, temporary-Live, ask-Owns, socket-Owns, close-Owns,
  set_tcp-Owns, take_tcp-Owns, take_udp-Owns,
}
use airplay2_sender_cpp.Loop.Descriptors.Slots.{
  IsServed, ask-IsServed, set_tcp-IsServed, served-Live, close_tcp-IsSound, close_udp-IsSound,
  renew_tcp-IsSound, renew_udp-IsSound, renew_tcp-fd, renew_udp-fd, drain-IsServed,
}

module _ (os : Os) (rounds : ℕ) where
  connect_done-IsSound :
      (ch : RaopTcp) (fd : ℕ) (l : Loop)
      → (tcp_slot ch l).fd ≡ none
      → Owns os (some fd) l
      → IsSound os (connect_done os rounds ch fd l)
  unfolding connect_done
  connect_done-IsSound ch fd l e o =
      if-both (IsSound os) _ _ _ (take_tcp-Owns os ch _ l e o)
        (set_tcp-Owns os ch _ none (ask (Sys.close (some fd)) l) refl (close-Owns os fd l o))

  connect_socket-IsSound :
      (ch : RaopTcp) (address : Bytes) (port : ℕ) (l : Loop) (n : Option ℕ)
      → (tcp_slot ch l).fd ≡ none
      → Owns os n l
      → IsSound os (connect_socket os rounds ch address port l n)
  unfolding connect_socket
  connect_socket-IsSound ch address port l none e o = set_tcp-Owns os ch _ none l refl o
  connect_socket-IsSound ch address port l (some fd) e o =
      let l1 = ask (Sys.set_options (some fd)) l in
      let o1 =
        ask-Owns os (Sys.set_options (some fd)) (some fd) l refl (temporary-Live os fd l o) o in
      let sys = Sys.connect (some fd) address port in
      connect_done-IsSound ch fd (ask sys l1)
        (ap (λ s. s.fd) (slot-ask ch sys l1 ∙ slot-ask ch (Sys.set_options (some fd)) l) ∙ e)
        (ask-Owns os sys (some fd) l1 refl (temporary-Live os fd l1 o1) o1)

  connect_resolved-IsSound :
      (ch : RaopTcp) (host : Bytes) (port : ℕ) (l : Loop) (n : Option ℕ)
      → (tcp_slot ch l).fd ≡ none
      → IsSound os l
      → IsSound os (connect_resolved os rounds ch host port l n)
  unfolding connect_resolved
  connect_resolved-IsSound ch host port l none e o = set_tcp-Owns os ch _ none l refl o
  connect_resolved-IsSound ch host port l (some n) e o =
      connect_socket-IsSound ch _ port (ask (Sys.socket true) l) _
        (ap (λ s. s.fd) (slot-ask ch (Sys.socket true) l) ∙ e) (socket-Owns os true l o)

  pub tcp_connect-IsSound :
      (ch : RaopTcp) (host : Bytes) (port : ℕ) (l : Loop)
      → IsSound os l
      → IsSound os (tcp_connect os rounds ch host port l)
  unfolding tcp_connect
  tcp_connect-IsSound ch host port l o =
      let l1 = renew_tcp ch l in
      connect_resolved-IsSound ch host port (ask (Sys.resolve host) l1) _
        (ap (λ s. s.fd) (slot-ask ch (Sys.resolve host) l1) ∙ renew_tcp-fd os ch l)
        (ask-Owns os (Sys.resolve host) none l1 refl tt (renew_tcp-IsSound os ch l o))

  park_error-IsSound :
      (ch : RaopTcp) (r : Loop × Option ℕ) → IsSound os r.0 → IsSound os (park_error os rounds ch r)
  unfolding park_error
  park_error-IsSound ch (l, none) o = o
  park_error-IsSound ch (l, some e) o =
      if-both (IsSound os) (is_none (tcp_slot ch l).send_failed) _ _
        (set_tcp-Owns os ch _ none l refl o) o

  pub tcp_send-IsSound :
      (ch : RaopTcp) (bytes : Bytes) (l : Loop)
      → IsSound os l
      → IsSound os (tcp_send os rounds ch bytes l)
  unfolding tcp_send
  tcp_send-IsSound ch bytes l o =
      if-split (IsSound os) (is_bad (tcp_slot ch l).fd || length bytes == 0) _ _ (λ e. o)
        (λ e.
          let l' = queue_bytes ch bytes l in
          let served = set_tcp-IsServed os ch _ l refl (o, ground arith) in
          if-both (IsSound os) (not (tcp_slot ch l').connected) _ _ served.0
            (park_error-IsSound ch _ (drain-IsServed os ch l' served).0))

  -- A call on the slot's own socket, and one on no socket.
  clock-IsServed : (ch : RaopTcp) (l : Loop) → IsServed os ch l → IsServed os ch (ask Sys.clock l)
  clock-IsServed ch l o = ask-IsServed os Sys.clock ch l refl tt o

  flushed-IsServed :
      (more : Loop → Loop) (deadline : ℕ) (ch : RaopTcp) (r : Loop × Option ℕ)
      → ((m : Loop) → IsServed os ch m → IsServed os ch (more m))
      → IsServed os ch r.0
      → IsServed os ch (flushed os rounds more deadline ch r)
  unfolding flushed
  flushed-IsServed more deadline ch (l, some e) h o = o
  flushed-IsServed more deadline ch (l, none) h o =
      let l' = ask Sys.clock l in
      let o' = clock-IsServed ch l o in
      if-both (IsServed os ch) _ _ _ o (
        h _ (
          ask-IsServed os (poll_one (tcp_slot ch l').fd true (wait_ms (reply os l').time deadline))
            ch l' refl (served-Live os ch l' o', tt) o'))

  flush_loop-IsServed :
      (fuel deadline : ℕ) (ch : RaopTcp) (l : Loop)
      → IsServed os ch l
      → IsServed os ch (flush_loop os rounds fuel deadline ch l)
  unfolding flush_loop
  flush_loop-IsServed zero deadline ch l o = o
  flush_loop-IsServed (suc fuel) deadline ch l o =
      let l' = ask Sys.clock l in
      let o' = clock-IsServed ch l o in
      elim-split (IsServed os ch) (unsent (tcp_slot ch l)) _ _
        (λ e.
          elim-split (IsServed os ch) (ltb (reply os l').time deadline) _ _
            (λ k.
              flushed-IsServed (flush_loop os rounds fuel deadline ch) deadline ch (drain os ch l')
                (λ m. flush_loop-IsServed fuel deadline ch m) (drain-IsServed os ch l' o'))
            (λ k. o'))
        (λ e. o)

  linger_loop-IsServed :
      (fuel deadline : ℕ) (ch : RaopTcp) (l : Loop)
      → IsServed os ch l
      → IsServed os ch (linger_loop os rounds fuel deadline ch l)
  unfolding linger_loop
  linger_loop-IsServed zero deadline ch l o = o
  linger_loop-IsServed (suc fuel) deadline ch l o =
      let l1 = ask Sys.clock l in
      let o1 = clock-IsServed ch l o in
      let left = (deadline - (reply os l1).time) / 1000000 in
      let l2 = ask (poll_one (tcp_slot ch l1).fd false left) l1 in
      let o2 =
        ask-IsServed os (poll_one (tcp_slot ch l1).fd false left) ch l1 refl
          (served-Live os ch l1 o1, tt) o1 in
      let l3 = ask (Sys.recv (tcp_slot ch l2).fd 1024) l2 in
      let o3 =
        ask-IsServed os (Sys.recv (tcp_slot ch l2).fd 1024) ch l2 refl (served-Live os ch l2 o2)
          o2 in
      elim-split (IsServed os ch) (left == 0) _ _ (λ e. o1)
        (λ e.
          elim-split (λ m. IsServed os ch m) (is_positive (reply os l2).count) _ _
            (λ k.
              elim-split (IsServed os ch) (keeps_draining os rounds (reply os l3)) _ _
                (λ j. linger_loop-IsServed fuel deadline ch l3 o3) (λ j. o3))
            (λ k. o2))

  shut_down-IsServed :
      (ch : RaopTcp) (l : Loop) → IsServed os ch l → IsServed os ch (shut_down os rounds ch l)
  unfolding shut_down
  shut_down-IsServed ch l o =
      let l2 =
        flush_loop os rounds rounds ((reply os (ask Sys.clock l)).time + 500 * 1000000) ch
          (ask Sys.clock l) in
      let o2 = flush_loop-IsServed rounds _ ch (ask Sys.clock l) (clock-IsServed ch l o) in
      let o3 =
        ask-IsServed os (Sys.shutdown (tcp_slot ch l2).fd) ch l2 refl (served-Live os ch l2 o2)
          o2 in
      linger_loop-IsServed rounds _ ch _ (clock-IsServed ch _ o3)

  pub tcp_close-IsSound :
      (ch : RaopTcp) (flush : Bool) (l : Loop)
      → IsSound os l
      → IsSound os (tcp_close os rounds ch flush l)
  unfolding tcp_close
  tcp_close-IsSound ch flush l o =
      if-split (IsSound os) (is_bad (tcp_slot ch l).fd) _ _
        (λ e. set_tcp-Owns os ch _ none l (ground (arith)) o)
        (λ e.
          if-both (IsSound os) _ _ _ (close_tcp-IsSound os ch _ (shut_down-IsServed ch l (o, e)).0)
            (close_tcp-IsSound os ch l o))

  bound-IsSound :
      (u : RaopUdp) (fd : ℕ) (l : Loop)
      → (udp_slot u l).fd ≡ none
      → Owns os (some fd) l
      → IsSound os (bound os rounds u fd l).0
  unfolding bound
  bound-IsSound u fd l e o =
      let opts = Sys.set_options (some fd) in
      let l1 = ask opts l in
      let o1 = ask-Owns os opts (some fd) l refl (temporary-Live os fd l o) o in
      let name = Sys.getsockname (some fd) in
      let l2 = ask name l1 in
      let o2 = ask-Owns os name (some fd) l1 refl (temporary-Live os fd l1 o1) o1 in
      let P = λ (r : Loop × ℕ). IsSound os r.0 in
      if-both P _ _ _ (close-Owns os fd l o) (
        if-both P _ _ _ (close-Owns os fd l2 o2) (
          take_udp-Owns os u _ l2
            (ap (λ s. s.fd) (slot-ask_udp u name l1 ∙ slot-ask_udp u opts l) ∙ e) o2))

  bind_socket-IsSound :
      (u : RaopUdp) (l : Loop) (n : Option ℕ)
      → (udp_slot u l).fd ≡ none
      → Owns os n l
      → IsSound os (bind_socket os rounds u l n).0
  unfolding bind_socket
  bind_socket-IsSound u l none e o = o
  bind_socket-IsSound u l (some fd) e o =
      let opts = Sys.set_options (some fd) in
      let l1 = ask opts l in
      let o1 = ask-Owns os opts (some fd) l refl (temporary-Live os fd l o) o in
      let bind = Sys.bind (some fd) in
      bound-IsSound u fd (ask bind l1)
        (ap (λ s. s.fd) (slot-ask_udp u bind l1 ∙ slot-ask_udp u opts l) ∙ e)
        (ask-Owns os bind (some fd) l1 refl (temporary-Live os fd l1 o1) o1)

  pub udp_bind-IsSound :
      (u : RaopUdp) (l : Loop) → IsSound os l → IsSound os (udp_bind os rounds u l).0
  unfolding udp_bind
  udp_bind-IsSound u l o =
      let l1 = renew_udp u l in
      bind_socket-IsSound u (ask (Sys.socket false) l1) _
        (ap (λ s. s.fd) (slot-ask_udp u (Sys.socket false) l1) ∙ renew_udp-fd os u l)
        (socket-Owns os false l1 (renew_udp-IsSound os u l o))

  pub udp_send-IsSound :
      (u : RaopUdp) (to : RaopEndpoint) (bytes : Bytes) (l : Loop)
      → IsSound os l
      → IsSound os (udp_send os rounds u to bytes l)
  unfolding udp_send
  udp_send-IsSound u to bytes l o =
      if-split (IsSound os) (is_bad (udp_slot u l).fd || not (os.valid_ip to.ip)) _ _ (λ e. o)
        (λ e. ask-Owns os _ none l refl (IsOpenUdp-Live os u none l o (ground arith)) o)

  pub udp_close-IsSound : (u : RaopUdp) (l : Loop) → IsSound os l → IsSound os (udp_close u l)
  unfolding udp_close
  udp_close-IsSound u l o = close_udp-IsSound os u l o
