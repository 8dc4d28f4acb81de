-- ===== src/Loop/Descriptors/Delivery.antt =====
-- What src/raop_loop.cpp delivers to the sender keeps account of the descriptors.
use airplay2_sender_cpp.Base.{ℕ, ◌≡◌, refl, true, List, [], ◌∷◌, Option, none, some, Bytes}
use airplay2_sender_cpp.Sender.Action.{RaopTcp, Action}
use airplay2_sender_cpp.Sender.Calls.{Call}
use airplay2_sender_cpp.Loop.System.{Sys, Os, Loop, ask, reply}
use airplay2_sender_cpp.Loop.Client.{Client, Host, act, act_all, deliver}
use airplay2_sender_cpp.Loop.Pump.{close_and, asked, parked, deliver_parked, wait_ms}
use airplay2_sender_cpp.Loop.Descriptors.{Needs, IsSound, IsOpen}
use airplay2_sender_cpp.Loop.Descriptors.Primitives.{neutral, ask-Owns}
use airplay2_sender_cpp.Loop.Descriptors.Slots.{IsServed, ask-IsServed, close_tcp-IsSound}
use airplay2_sender_cpp.Loop.Descriptors.Io.{
  tcp_connect-IsSound, tcp_send-IsSound, tcp_close-IsSound, udp_bind-IsSound, udp_send-IsSound,
  udp_close-IsSound,
}

-- A slot that still has the socket of an entry is open.
module _ (os : Os) (rounds : ℕ) where
  act-IsSound : (a : Action) (l : Loop) → IsSound os l → IsSound os (act os rounds a l)
  unfolding act
  act-IsSound (Action.tcp_connect ch host port) l o = tcp_connect-IsSound os rounds ch host port l o
  act-IsSound (Action.tcp_send ch bytes) l o = tcp_send-IsSound os rounds ch bytes l o
  act-IsSound (Action.tcp_close ch flush) l o = tcp_close-IsSound os rounds ch flush l o
  act-IsSound (Action.udp_bind u) l o = udp_bind-IsSound os rounds u l o
  act-IsSound (Action.udp_send u to bytes) l o = udp_send-IsSound os rounds u to bytes l o
  act-IsSound (Action.udp_close u) l o = udp_close-IsSound os rounds u l o
  act-IsSound (Action.launched fine reason) l o = o
  act-IsSound Action.closed l o = o
  act-IsSound (Action.pin_required name) l o = o
  act-IsSound (Action.credentials_obtained device json) l o = o

  act_all-IsSound :
      (actions : List Action) (l : Loop) → IsSound os l → IsSound os (act_all os rounds actions l)
  unfolding act_all
  act_all-IsSound [] l o = o
  act_all-IsSound (a ∷ actions) l o =
      act_all-IsSound actions (act os rounds a l) (act-IsSound a l o)

  module _ {S : Type 0} (c : Client S) where
    -- The loop of the host is sound.
    pub record Kept (h : Host S) : Type 0 where
      pub sound : IsSound os h.loop

    pub keep : {h : Host S} → IsSound os h.loop → Kept h
    keep o = record { sound = o }

    pub deliver-Kept : (call : Call) (h : Host S) → Kept h → Kept (deliver os rounds c call h)
    unfolding deliver
    deliver-Kept call h o =
        let l = ask Sys.clock h.loop in
        keep (
          act_all-IsSound (c.handle (reply os l).time (reply os l).wall call h.client).1 l
            (ask-Owns os Sys.clock none h.loop refl tt o.sound))

    pub close_and-IsSound :
        (ch : RaopTcp) (call : Call) (h : Host S) → Kept h → Kept (close_and os rounds c ch call h)
    close_and-IsSound ch call h o =
        deliver-Kept call _ (keep (close_tcp-IsSound os ch h.loop o.sound))

    pub parked-IsSound :
        (ch : RaopTcp) (h : Host S) (p q : Option Bytes)
        → Kept h
        → Kept (parked os rounds c ch h p q)
    parked-IsSound ch h (some why) q o = close_and-IsSound ch _ h o
    parked-IsSound ch h none (some why) o = close_and-IsSound ch _ h o
    parked-IsSound ch h none none o = o

    pub deliver_parked-IsSound :
        (ch : RaopTcp) (h : Host S) → Kept h → Kept (deliver_parked os rounds c ch h)
    unfolding deliver_parked
    deliver_parked-IsSound ch h o = parked-IsSound ch h _ _ o

    pub wait_ms-IsSound :
        (max_wait : ℕ) (h : Host S) (d : Option ℕ)
        → Kept h
        → Kept (wait_ms os rounds c max_wait h d).0
    wait_ms-IsSound max_wait h none o = o
    wait_ms-IsSound max_wait h (some d) o = keep (ask-Owns os Sys.clock none h.loop refl tt o.sound)

    pub asked-Kept :
        (sys : Sys) (h : Host S)
        → neutral sys ≡ true
        → Needs os sys h.loop.log
        → Kept h
        → Kept (asked os rounds c sys h)
    asked-Kept sys h e n o = keep (ask-Owns os sys none h.loop e n o.sound)

    -- Kept, and the slot is open.
    pub record Serving (ch : RaopTcp) (h : Host S) : Type 0 where
      pub served : IsServed os ch h.loop

    pub kept : {ch : RaopTcp} {h : Host S} → Serving ch h → Kept h
    kept o = record { sound = o.served.0 }

    pub opened : {ch : RaopTcp} {h : Host S} → Kept h → IsOpen os ch h.loop → Serving ch h
    opened o k = record { served = (o.sound, k) }

    pub asked-Serving :
        (sys : Sys) (ch : RaopTcp) (h : Host S)
        → neutral sys ≡ true
        → Needs os sys h.loop.log
        → Serving ch h
        → Serving ch (asked os rounds c sys h)
    asked-Serving sys ch h e n o = record { served = ask-IsServed os sys ch h.loop e n o.served }
