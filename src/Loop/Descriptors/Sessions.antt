-- ===== src/Loop/Descriptors/Sessions.antt =====
-- A whole life of a `RaopLoop` of src/raop_loop.cpp, from its constructor to its destructor.
use airplay2_sender_cpp.Base.{ℕ, ◌≡◌, refl, List, [], ◌∷◌, none, some, arith}
use airplay2_sender_cpp.Loop.System.{Sock, Os, Loop, new_loop}
use airplay2_sender_cpp.Loop.Slots.{close_socket, close_tcp, close_udp, destroy}
use airplay2_sender_cpp.Loop.Client.{Client, Host, deliver}
use airplay2_sender_cpp.Loop.Pump.{Use, session, pump}
use airplay2_sender_cpp.Loop.Descriptors.{holds, live, Proper, IsSound}
use airplay2_sender_cpp.Loop.Descriptors.Slots.{destroy-IsSound}
use airplay2_sender_cpp.Loop.Descriptors.Pump.{deliver-IsSound, pump-IsSound}

control_kept : (fd : Sock) (l : Loop) → (close_socket fd l).tcp_control ≡ l.tcp_control
control_kept none l = refl
control_kept (some x) l = refl

event_kept : (fd : Sock) (l : Loop) → (close_socket fd l).tcp_event ≡ l.tcp_event
event_kept none l = refl
event_kept (some x) l = refl

audio_kept : (fd : Sock) (l : Loop) → (close_socket fd l).udp_audio ≡ l.udp_audio
audio_kept none l = refl
audio_kept (some x) l = refl

udp_control_kept : (fd : Sock) (l : Loop) → (close_socket fd l).udp_control ≡ l.udp_control
udp_control_kept none l = refl
udp_control_kept (some x) l = refl

timing_kept : (fd : Sock) (l : Loop) → (close_socket fd l).udp_timing ≡ l.udp_timing
timing_kept none l = refl
timing_kept (some x) l = refl

holds-destroy : (x : ℕ) (l : Loop) → holds x (destroy l) ≡ 0
unfolding destroy close_tcp close_udp
holds-destroy x l = simp (control_kept, event_kept, audio_kept, udp_control_kept, timing_kept)

module _ (os : Os) (rounds : ℕ) {S : Type 0} (c : Client S) where
  session-IsSound :
      (uses : List Use) (h : Host S)
      → IsSound os h.loop
      → IsSound os (session os rounds c uses h).loop
  unfolding session
  session-IsSound [] h o = o
  session-IsSound (Use.request k ∷ uses) h o =
      session-IsSound uses (deliver os rounds c k h) (deliver-IsSound os rounds c k h o)
  session-IsSound (Use.round ms ∷ uses) h o =
      session-IsSound uses (pump os rounds c ms h) (pump-IsSound os rounds c ms h o)

  -- Whatever the system answers, whatever the sender does with its calls, and however calls of the
  -- sender and rounds of the loop alternate: a new loop that is destroyed in the end has named only
  -- descriptors in its calls of the system that were live then, never the bad socket, and has given
  -- every descriptor back as often as it was handed out.
  pub session-Balanced :
      (uses : List Use) (s : S)
      → let l = destroy (session os rounds c uses (record { client = s; loop = new_loop })).loop in
        Proper os l.log × ((x : ℕ) → live os x l.log ≡ 0)
  session-Balanced uses s =
      let h = session os rounds c uses (record { client = s; loop = new_loop }) in
      let o =
        destroy-IsSound os h.loop
          (session-IsSound uses _ (record { proper = tt; counts = λ x. omega arith })) in
      (o.proper, λ x. omega (arith, o.counts x, holds-destroy x h.loop))
