-- ===== src/Loop/Descriptors/Slots.antt =====
-- Opening, closing and draining a slot of src/raop_loop.cpp keeps account of its descriptor.
use airplay2_sender_cpp.Base.{
  elim-split, ℕ, zero, suc, ◌≡◌, refl, ap, sym, subst, ◌∙◌, true, Option, none, some, length,
}
use airplay2_sender_cpp.Sender.Action.{RaopTcp, RaopUdp}
use airplay2_sender_cpp.Loop.System.{
  Sock, Sys, Os, TcpSlot, UdpSlot, Loop, tcp_slot, udp_slot, set_tcp, set_udp, ask, is_bad,
  reset_slot,
}
use airplay2_sender_cpp.Loop.Slots.{
  close_tcp, close_udp, close_socket, drain, drain_loop, drained, unsent, send_next, destroy,
}
use airplay2_sender_cpp.Loop.Io.{renew_tcp, renew_udp}
use airplay2_sender_cpp.Loop.Descriptors.{Live, Needs, IsSound, IsOpen}
use airplay2_sender_cpp.Loop.Descriptors.Primitives.{
  neutral, slot-set_tcp, slot-set_udp, slot-ask, IsOpen-Live, IsOpenUdp-Live, ask-Owns,
  set_tcp-Owns, set_udp-Owns, set_tcp_closed-Owns, set_udp_closed-Owns,
}

module _ (os : Os) where
  -- `l` is sound, and the slot is open.
  abbrev pub IsServed : RaopTcp → Loop → Type 0
  IsServed ch l = IsSound os l × IsOpen os ch l

  pub ask-IsServed :
      (sys : Sys) (ch : RaopTcp) (l : Loop)
      → neutral sys ≡ true
      → Needs os sys l.log
      → IsServed ch l
      → IsServed ch (ask sys l)
  ask-IsServed sys ch l e n (o, k) =
      (ask-Owns os sys none l e n o, ap (λ s. is_bad s.fd) (slot-ask ch sys l) ∙ k)

  pub set_tcp-IsServed :
      (ch : RaopTcp) (s : TcpSlot) (l : Loop)
      → s.fd ≡ (tcp_slot ch l).fd
      → IsServed ch l
      → IsServed ch (set_tcp ch s l)
  set_tcp-IsServed ch s l e (o, k) = (
    set_tcp-Owns os ch s none l e o,
    ap (λ r. is_bad r.fd) (slot-set_tcp ch s l) ∙ (ap is_bad e ∙ k),
  )

  -- The socket of a served slot is live.
  pub served-Live : (ch : RaopTcp) (l : Loop) → IsServed ch l → Live os l.log (tcp_slot ch l).fd
  served-Live ch l (o, k) = IsOpen-Live os ch none l o k

  release_tcp-IsSound :
      (ch : RaopTcp) (s : TcpSlot) (l : Loop) (fd : Sock)
      → (tcp_slot ch l).fd ≡ fd
      → s.fd ≡ none
      → IsSound os l
      → IsSound os (set_tcp ch s (close_socket fd l))
  release_tcp-IsSound ch s l none e k o = set_tcp-Owns os ch s none l (k ∙ sym e) o
  release_tcp-IsSound ch s l (some y) e k o =
      set_tcp_closed-Owns os ch s l y e k o
        (subst (Live os l.log) e (IsOpen-Live os ch none l o (ap is_bad e)))

  pub close_tcp-IsSound : (ch : RaopTcp) (l : Loop) → IsSound os l → IsSound os (close_tcp ch l)
  unfolding close_tcp
  close_tcp-IsSound ch l o =
      release_tcp-IsSound ch (reset_slot (tcp_slot ch l)) l (tcp_slot ch l).fd refl refl o

  pub close_tcp-fd : (ch : RaopTcp) (l : Loop) → (tcp_slot ch (close_tcp ch l)).fd ≡ none
  unfolding close_tcp
  close_tcp-fd ch l =
      ap (λ s. s.fd)
        (slot-set_tcp ch (reset_slot (tcp_slot ch l)) (close_socket (tcp_slot ch l).fd l))

  release_udp-IsSound :
      (u : RaopUdp) (s : UdpSlot) (l : Loop) (fd : Sock)
      → (udp_slot u l).fd ≡ fd
      → s.fd ≡ none
      → IsSound os l
      → IsSound os (set_udp u s (close_socket fd l))
  release_udp-IsSound u s l none e k o = set_udp-Owns os u s none l (k ∙ sym e) o
  release_udp-IsSound u s l (some y) e k o =
      set_udp_closed-Owns os u s l y e k o
        (subst (Live os l.log) e (IsOpenUdp-Live os u none l o (ap is_bad e)))

  pub close_udp-IsSound : (u : RaopUdp) (l : Loop) → IsSound os l → IsSound os (close_udp u l)
  unfolding close_udp
  close_udp-IsSound u l o =
      release_udp-IsSound u (record (udp_slot u l) { fd = none }) l (udp_slot u l).fd refl refl o

  close_udp-fd : (u : RaopUdp) (l : Loop) → (udp_slot u (close_udp u l)).fd ≡ none
  unfolding close_udp
  close_udp-fd u l =
      ap (λ s. s.fd)
        (slot-set_udp u (record (udp_slot u l) { fd = none }) (close_socket (udp_slot u l).fd l))

  pub renew_tcp-IsSound : (ch : RaopTcp) (l : Loop) → IsSound os l → IsSound os (renew_tcp ch l)
  unfolding renew_tcp
  renew_tcp-IsSound ch l o =
      set_tcp-Owns os ch _ none (close_tcp ch l) refl (close_tcp-IsSound ch l o)

  pub renew_tcp-fd : (ch : RaopTcp) (l : Loop) → (tcp_slot ch (renew_tcp ch l)).fd ≡ none
  unfolding renew_tcp
  renew_tcp-fd ch l = ap (λ s. s.fd) (slot-set_tcp ch _ (close_tcp ch l)) ∙ close_tcp-fd ch l

  pub renew_udp-IsSound : (u : RaopUdp) (l : Loop) → IsSound os l → IsSound os (renew_udp u l)
  unfolding renew_udp
  renew_udp-IsSound u l o = set_udp-Owns os u _ none (close_udp u l) refl (close_udp-IsSound u l o)

  pub renew_udp-fd : (u : RaopUdp) (l : Loop) → (udp_slot u (renew_udp u l)).fd ≡ none
  unfolding renew_udp
  renew_udp-fd u l = ap (λ s. s.fd) (slot-set_udp u _ (close_udp u l)) ∙ close_udp-fd u l

  pub destroy-IsSound : (l : Loop) → IsSound os l → IsSound os (destroy l)
  unfolding destroy
  destroy-IsSound l o = close_udp-IsSound RaopUdp.timing _ (
      close_udp-IsSound RaopUdp.control _ (
        close_udp-IsSound RaopUdp.audio _
          (close_tcp-IsSound RaopTcp.event _ (close_tcp-IsSound RaopTcp.control l o))))

  drained-IsServed :
      (more : Loop → Loop × Option ℕ) (ch : RaopTcp) (l : Loop) (n : Option ℕ)
      → ((m : Loop) → IsServed ch m → IsServed ch (more m).0)
      → IsServed ch l
      → IsServed ch (drained os more ch l n).0
  unfolding drained
  drained-IsServed more ch l none h o = o
  drained-IsServed more ch l (some zero) h o = o
  drained-IsServed more ch l (some (suc n)) h o = h _ (set_tcp-IsServed ch _ l refl o)

  drain_loop-IsServed :
      (fuel : ℕ) (ch : RaopTcp) (l : Loop) → IsServed ch l → IsServed ch (drain_loop os fuel ch l).0
  unfolding drain_loop
  drain_loop-IsServed zero ch l o = o
  drain_loop-IsServed (suc fuel) ch l o =
      elim-split (λ (r : Loop × Option ℕ). IsServed ch r.0) (unsent (tcp_slot ch l)) _ _
        (λ e.
          drained-IsServed (drain_loop os fuel ch) ch (send_next ch l) _
            (λ m. drain_loop-IsServed fuel ch m) (ask-IsServed _ ch l refl (served-Live ch l o) o))
        (λ e. set_tcp-IsServed ch _ l refl o)

  pub drain-IsServed : (ch : RaopTcp) (l : Loop) → IsServed ch l → IsServed ch (drain os ch l).0
  unfolding drain
  drain-IsServed ch l o = drain_loop-IsServed (suc (length (tcp_slot ch l).out)) ch l o
