-- ===== src/Loop/Descriptors/Primitives.antt =====
-- What the primitive steps of src/raop_loop.cpp do to the descriptors.
use airplay2_sender_cpp.Base.{
  ℕ, ◌+◌, ◌≤◌, ◌≡◌, refl, ap, sym, subst, ◌∙◌, Bool, true, false, List, ◌∷◌, none, some, arith,
}
use airplay2_sender_cpp.Sender.Action.{RaopTcp, RaopUdp}
use airplay2_sender_cpp.Loop.System.{
  Sock, Sys, Os, TcpSlot, UdpSlot, Loop, tcp_slot, udp_slot, set_tcp, set_udp, ask, is_bad,
}
use airplay2_sender_cpp.Loop.Descriptors.{
  held, holds, live, Live, Needs, Proper, Owns, IsSound, IsOpen, IsOpenUdp,
}

-- The calls that neither open nor close.
abbrev pub neutral : Sys → Bool
neutral (Sys.socket stream) = false
neutral (Sys.close fd) = false
neutral sys = true

held_self : (x : ℕ) → held x (some x) ≡ 1
held_self x = ground arith

held-le-holds : (ch : RaopTcp) (x : ℕ) (l : Loop) → held x (tcp_slot ch l).fd ≤ holds x l
held-le-holds RaopTcp.control x l = omega arith
held-le-holds RaopTcp.event x l = omega arith

held-le-holds_udp : (u : RaopUdp) (x : ℕ) (l : Loop) → held x (udp_slot u l).fd ≤ holds x l
held-le-holds_udp RaopUdp.audio x l = omega arith
held-le-holds_udp RaopUdp.control x l = omega arith
held-le-holds_udp RaopUdp.timing x l = omega arith

-- Writing a slot exchanges the descriptor that it holds.
holds-set_tcp :
    (ch : RaopTcp) (s : TcpSlot) (x : ℕ) (l : Loop)
    → holds x (set_tcp ch s l) + held x (tcp_slot ch l).fd ≡ holds x l + held x s.fd
holds-set_tcp RaopTcp.control s x l = omega arith
holds-set_tcp RaopTcp.event s x l = omega arith

holds-set_udp :
    (u : RaopUdp) (s : UdpSlot) (x : ℕ) (l : Loop)
    → holds x (set_udp u s l) + held x (udp_slot u l).fd ≡ holds x l + held x s.fd
holds-set_udp RaopUdp.audio s x l = omega arith
holds-set_udp RaopUdp.control s x l = omega arith
holds-set_udp RaopUdp.timing s x l = omega arith

pub log-set_tcp : (ch : RaopTcp) (s : TcpSlot) (l : Loop) → (set_tcp ch s l).log ≡ l.log
log-set_tcp RaopTcp.control s l = refl
log-set_tcp RaopTcp.event s l = refl

log-set_udp : (u : RaopUdp) (s : UdpSlot) (l : Loop) → (set_udp u s l).log ≡ l.log
log-set_udp RaopUdp.audio s l = refl
log-set_udp RaopUdp.control s l = refl
log-set_udp RaopUdp.timing s l = refl

pub slot-set_tcp : (ch : RaopTcp) (s : TcpSlot) (l : Loop) → tcp_slot ch (set_tcp ch s l) ≡ s
slot-set_tcp RaopTcp.control s l = refl
slot-set_tcp RaopTcp.event s l = refl

pub slot-set_udp : (u : RaopUdp) (s : UdpSlot) (l : Loop) → udp_slot u (set_udp u s l) ≡ s
slot-set_udp RaopUdp.audio s l = refl
slot-set_udp RaopUdp.control s l = refl
slot-set_udp RaopUdp.timing s l = refl

pub slot-ask : (ch : RaopTcp) (sys : Sys) (l : Loop) → tcp_slot ch (ask sys l) ≡ tcp_slot ch l
slot-ask RaopTcp.control sys l = refl
slot-ask RaopTcp.event sys l = refl

pub slot-ask_udp : (u : RaopUdp) (sys : Sys) (l : Loop) → udp_slot u (ask sys l) ≡ udp_slot u l
slot-ask_udp RaopUdp.audio sys l = refl
slot-ask_udp RaopUdp.control sys l = refl
slot-ask_udp RaopUdp.timing sys l = refl

module _ (os : Os) where
  live_of_held :
      (s : Sock) (log : List Sys)
      → is_bad s ≡ false
      → ((x : ℕ) → held x s ≤ live os x log)
      → Live os log s
  live_of_held none log e h = cc
  live_of_held (some x) log e h = omega (arith, h x, held_self x)

  -- The socket of an open slot is live.
  pub IsOpen-Live :
      (ch : RaopTcp) (t : Sock) (l : Loop)
      → Owns os t l
      → IsOpen os ch l
      → Live os l.log (tcp_slot ch l).fd
  IsOpen-Live ch t l o e =
      live_of_held (tcp_slot ch l).fd l.log e (λ x. omega (arith, o.counts x, held-le-holds ch x l))

  pub IsOpenUdp-Live :
      (u : RaopUdp) (t : Sock) (l : Loop)
      → Owns os t l
      → IsOpenUdp os u l
      → Live os l.log (udp_slot u l).fd
  IsOpenUdp-Live u t l o e =
      live_of_held (udp_slot u l).fd l.log e
        (λ x. omega (arith, o.counts x, held-le-holds_udp u x l))

  pub temporary-Live : (x : ℕ) (l : Loop) → Owns os (some x) l → Live os l.log (some x)
  temporary-Live x l o = omega (arith, o.counts x, held_self x)

  live-neutral :
      (x : ℕ) (sys : Sys) (log : List Sys)
      → neutral sys ≡ true
      → live os x (sys ∷ log) ≡ live os x log
  live-neutral x (Sys.socket stream) log e = cc
  live-neutral x (Sys.close fd) log e = cc
  live-neutral x (Sys.resolve host) log e = refl
  live-neutral x (Sys.set_options fd) log e = refl
  live-neutral x (Sys.bind fd) log e = refl
  live-neutral x (Sys.getsockname fd) log e = refl
  live-neutral x (Sys.getpeername fd) log e = refl
  live-neutral x (Sys.get_error fd) log e = refl
  live-neutral x (Sys.shutdown fd) log e = refl
  live-neutral x (Sys.connect fd address port) log e = refl
  live-neutral x (Sys.send fd bytes) log e = refl
  live-neutral x (Sys.recv fd n) log e = refl
  live-neutral x (Sys.recvfrom fd n) log e = refl
  live-neutral x (Sys.sendto fd to bytes) log e = refl
  live-neutral x (Sys.poll fds ms) log e = refl
  live-neutral x (Sys.sleep ms) log e = refl
  live-neutral x Sys.clock log e = refl

  pub ask-Owns :
      (sys : Sys) (t : Sock) (l : Loop)
      → neutral sys ≡ true
      → Needs os sys l.log
      → Owns os t l
      → Owns os t (ask sys l)
  ask-Owns sys t l e n o = record {
    proper = (n, o.proper);
    counts = λ x. live-neutral x sys l.log e ∙ o.counts x;
  }

  pub socket-Owns :
      (stream : Bool) (l : Loop)
      → IsSound os l
      → Owns os (os.answer (Sys.socket stream ∷ l.log)).count (ask (Sys.socket stream) l)
  socket-Owns stream l o = record {
    proper = (tt, o.proper);
    counts = λ x. omega (arith, o.counts x);
  }

  -- A socket that no slot has taken is closed.
  pub close-Owns : (y : ℕ) (l : Loop) → Owns os (some y) l → IsSound os (ask (Sys.close (some y)) l)
  close-Owns y l o = record {
    proper = (temporary-Live y l o, o.proper);
    counts = λ x. omega (arith, o.counts x);
  }

  pub set_tcp-Owns :
      (ch : RaopTcp) (s : TcpSlot) (t : Sock) (l : Loop)
      → s.fd ≡ (tcp_slot ch l).fd
      → Owns os t l
      → Owns os t (set_tcp ch s l)
  set_tcp-Owns ch s t l e o = record {
    proper = subst (Proper os) (sym (log-set_tcp ch s l)) o.proper;
    counts = λ x.
        ap (live os x) (log-set_tcp ch s l)
        ∙ omega (arith, o.counts x, holds-set_tcp ch s x l, ap (held x) e);
  }

  pub set_udp-Owns :
      (u : RaopUdp) (s : UdpSlot) (t : Sock) (l : Loop)
      → s.fd ≡ (udp_slot u l).fd
      → Owns os t l
      → Owns os t (set_udp u s l)
  set_udp-Owns u s t l e o = record {
    proper = subst (Proper os) (sym (log-set_udp u s l)) o.proper;
    counts = λ x.
        ap (live os x) (log-set_udp u s l)
        ∙ omega (arith, o.counts x, holds-set_udp u s x l, ap (held x) e);
  }

  -- A closed slot takes the socket.
  pub take_tcp-Owns :
      (ch : RaopTcp) (s : TcpSlot) (l : Loop)
      → (tcp_slot ch l).fd ≡ none
      → Owns os s.fd l
      → IsSound os (set_tcp ch s l)
  take_tcp-Owns ch s l e o = record {
    proper = subst (Proper os) (sym (log-set_tcp ch s l)) o.proper;
    counts = λ x.
        ap (live os x) (log-set_tcp ch s l)
        ∙ omega (arith, o.counts x, holds-set_tcp ch s x l, ap (held x) e);
  }

  pub take_udp-Owns :
      (u : RaopUdp) (s : UdpSlot) (l : Loop)
      → (udp_slot u l).fd ≡ none
      → Owns os s.fd l
      → IsSound os (set_udp u s l)
  take_udp-Owns u s l e o = record {
    proper = subst (Proper os) (sym (log-set_udp u s l)) o.proper;
    counts = λ x.
        ap (live os x) (log-set_udp u s l)
        ∙ omega (arith, o.counts x, holds-set_udp u s x l, ap (held x) e);
  }

  -- A slot gives up its socket, which has been closed.
  pub set_tcp_closed-Owns :
      (ch : RaopTcp) (s : TcpSlot) (l : Loop) (y : ℕ)
      → (tcp_slot ch l).fd ≡ some y
      → s.fd ≡ none
      → IsSound os l
      → Live os l.log (some y)
      → IsSound os (set_tcp ch s (ask (Sys.close (some y)) l))
  set_tcp_closed-Owns ch s l y e k o v =
      let l' = ask (Sys.close (some y)) l in
      record {
        proper = subst (Proper os) (sym (log-set_tcp ch s l')) (v, o.proper);
        counts = λ x.
            ap (live os x) (log-set_tcp ch s l')
            ∙ omega (
              arith,
              o.counts x,
              holds-set_tcp ch s x l',
              ap (λ r. held x r.fd) (slot-ask ch (Sys.close (some y)) l),
              ap (held x) e,
              ap (held x) k,
            );
      }

  pub set_udp_closed-Owns :
      (u : RaopUdp) (s : UdpSlot) (l : Loop) (y : ℕ)
      → (udp_slot u l).fd ≡ some y
      → s.fd ≡ none
      → IsSound os l
      → Live os l.log (some y)
      → IsSound os (set_udp u s (ask (Sys.close (some y)) l))
  set_udp_closed-Owns u s l y e k o v =
      let l' = ask (Sys.close (some y)) l in
      record {
        proper = subst (Proper os) (sym (log-set_udp u s l')) (v, o.proper);
        counts = λ x.
            ap (live os x) (log-set_udp u s l')
            ∙ omega (
              arith,
              o.counts x,
              holds-set_udp u s x l',
              ap (λ r. held x r.fd) (slot-ask_udp u (Sys.close (some y)) l),
              ap (held x) e,
              ap (held x) k,
            );
      }
