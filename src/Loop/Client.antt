-- ===== src/Loop/Client.antt =====
-- The sender as src/raop_loop.cpp sees it: calls that it takes, and the calls of `RaopIo` that it
-- makes meanwhile. None of those that `pump` leads to waits for an answer, so they are carried out
-- in their order when the sender returns.
use airplay2_sender_cpp.Base.{ℕ, List, [], ◌∷◌, Option}
use mathlib.Core.List.{reverse}
use airplay2_sender_cpp.Crypto.Backend.{Backend}
use airplay2_sender_cpp.Sender.Action.{Action}
use airplay2_sender_cpp.Sender.State.{Sender}
use airplay2_sender_cpp.Sender.Calls.{Call, step}
use airplay2_sender_cpp.Sender.Timers.{next_deadline}
use airplay2_sender_cpp.Loop.System.{Sys, Os, Loop, ask, reply}
use airplay2_sender_cpp.Loop.Io.{tcp_connect, tcp_send, tcp_close, udp_bind, udp_send, udp_close}

pub record Client (S : Type 0) : Type 0 where
  -- at the times of the two clocks
  pub handle : ℕ → ℕ → Call → S → S × List Action
  pub deadline : S → Option ℕ

-- The sender of this library as a client.
abbrev pub sender_client : Backend → Client Sender
sender_client b = record {
  handle =
      λ now wall call s. let t = step b now wall call (record s { out = [] }) in (t, reverse t.out);
  deadline = λ s. next_deadline s.timers;
}

-- A loop beside the sender that it serves.
pub record Host (S : Type 0) : Type 0 where
  pub client : S
  pub loop : Loop

module _ (os : Os) (rounds : ℕ) where
  -- A call of `RaopIo`; the events for the application do not touch the loop.
  unfoldable pub act : Action → Loop → Loop
  unfolding tcp_connect tcp_send tcp_close udp_bind udp_send udp_close
  act (Action.tcp_connect ch host port) l = tcp_connect os rounds ch host port l
  act (Action.tcp_send ch bytes) l = tcp_send os rounds ch bytes l
  act (Action.tcp_close ch flush) l = tcp_close os rounds ch flush l
  act (Action.udp_bind u) l = (udp_bind os rounds u l).0
  act (Action.udp_send u to bytes) l = udp_send os rounds u to bytes l
  act (Action.udp_close u) l = udp_close u l
  act (Action.launched ok reason) l = l
  act Action.closed l = l
  act (Action.pin_required name) l = l
  act (Action.credentials_obtained device json) l = l

  unfoldable pub act_all : List Action → Loop → Loop
  unfolding act
  act_all [] l = l
  act_all (a ∷ actions) l = act_all actions (act a l)

  module _ {S : Type 0} (c : Client S) where
    -- A call of the sender, at the time that the clock shows.
    unfoldable pub deliver : Call → Host S → Host S
    unfolding act_all
    deliver call h =
        let l = ask Sys.clock h.loop in
        let (s, actions) = c.handle (reply os l).time (reply os l).wall call h.client in
        record { client = s; loop = act_all actions l }
