-- ===== src/Sender/Timers/Invariant.antt =====
-- `tick` of src/raop_sender.cpp keeps the invariant.
use airplay2_sender_cpp.Base.{false, not, [], ◌++◌, codes, if-both}
use airplay2_sender_cpp.Crypto.Backend.{Backend}
use airplay2_sender_cpp.Sender.Stage.{is_starting, is_streaming}
use airplay2_sender_cpp.Sender.State.{Sender, Timer, Timers}
use airplay2_sender_cpp.Sender.Request.{enqueue, bump_cseq}
use airplay2_sender_cpp.Sender.Request.Effects.{write_rtsp-Writes}
use airplay2_sender_cpp.Sender.Invariant.{Inv, same-Inv, Writes-Inv, enqueue-Inv}
use airplay2_sender_cpp.Sender.Lifecycle.Invariant.{fail-Inv}
use airplay2_sender_cpp.Sender.Handshake.Invariant.{send_request-Inv}
use airplay2_sender_cpp.Sender.Rtp.{send_sync_packet, on_pacer_tick}
use airplay2_sender_cpp.Sender.Rtp.Invariant.{send_sync_packet-Inv, on_pacer_tick-Inv}
use airplay2_sender_cpp.Sender.Timers.{
  on_handshake_timeout, on_pin_timeout, is_due, rearmed, fire, put_timeout, put_pin_timeout,
  put_feedback, put_sync, put_pacer, feedback_text, on_feedback_timer, tick,
}

on_handshake_timeout-Inv : (s : Sender) → Inv s → Inv (on_handshake_timeout s)
unfolding on_handshake_timeout
on_handshake_timeout-Inv s i = if-both Inv s.waiting_for_pin _ _ i (
    if-both Inv (is_starting s.state) _ _ (fail-Inv (codes "Timed out waiting for the device") s i)
      i)

on_pin_timeout-Inv : (s : Sender) → Inv s → Inv (on_pin_timeout s)
unfolding on_pin_timeout
on_pin_timeout-Inv s i = if-both Inv (not s.waiting_for_pin) _ _ i (
    fail-Inv
      (codes "No PIN was entered. Switch "
        ++ (s.config.name
            ++ codes " on and make sure its screen shows the AirPlay code, then try again."))
      (record s { waiting_for_pin = false }) (same-Inv i.facts))

fire-Inv :
    (get : Timers → Timer) (put : Timer → Timers → Timers) (handler : Sender → Sender) (s : Sender)
    → ((t : Sender) → Inv t → Inv (handler t))
    → Inv s
    → Inv (fire get put handler s)
unfolding fire
fire-Inv get put handler s f i =
    let u = record s { timers = put (rearmed s.now (get s.timers)) s.timers } in
    if-both Inv (is_due s.now (get s.timers)) _ _ (f u (same-Inv i.facts)) i

module _ (b : Backend) where
  on_feedback_timer-Inv : (s : Sender) → Inv s → Inv (on_feedback_timer b s)
  unfolding on_feedback_timer
  on_feedback_timer-Inv s i =
      let queued = enqueue (codes "FEEDBACK") false (bump_cseq s) in
      if-both Inv (not (is_streaming s.state)) _ _ i (
        if-both Inv s.config.airplay2 _ _
          (Writes-Inv queued _ (write_rtsp-Writes b (feedback_text b s) queued)
            (enqueue-Inv (codes "FEEDBACK") false (bump_cseq s) (same-Inv i.facts)))
          (send_request-Inv b (codes "POST") (codes "/feedback") [] [] [] s i))

  pub tick-Inv : (s : Sender) → Inv s → Inv (tick b s)
  unfolding tick
  tick-Inv s i = fire-Inv Timers.pacer put_pacer (on_pacer_tick b) _ (on_pacer_tick-Inv b) (
      fire-Inv Timers.sync_timer put_sync (send_sync_packet false) _ (send_sync_packet-Inv false) (
        fire-Inv Timers.feedback_timer put_feedback (on_feedback_timer b) _ on_feedback_timer-Inv (
          fire-Inv Timers.pin_timeout put_pin_timeout on_pin_timeout _ on_pin_timeout-Inv (
            fire-Inv Timers.timeout put_timeout on_handshake_timeout s on_handshake_timeout-Inv
              i))))
