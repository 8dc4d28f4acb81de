-- ===== src/Sender/Timers.antt =====
-- `tick`, `nextDeadline` and the timer handlers of src/raop_sender.cpp.
pub mod Deadline
pub mod Invariant
use airplay2_sender_cpp.Base.{
  ℕ, zero, suc, ◌+◌, Bool, true, false, not, ◌&&◌, ◌||◌, List, [], ◌∷◌, ◌++◌, Option, none, some,
  Bytes, codes, leb, ltb, if◌then◌else◌,
}
use airplay2_sender_cpp.Crypto.Backend.{Backend}
use airplay2_sender_cpp.Text.Numbers.{to_string}
use airplay2_sender_cpp.Sender.Stage.{is_starting, is_streaming}
use airplay2_sender_cpp.Sender.State.{Sender, Timer, Timers}
use airplay2_sender_cpp.Sender.Request.{
  crlf, opening, identity_lines, line, enqueue, bump_cseq, write_rtsp, send_request,
}
use airplay2_sender_cpp.Sender.Lifecycle.{fail}
use airplay2_sender_cpp.Sender.Rtp.{send_sync_packet, on_pacer_tick}

-- `onHandshakeTimeout_`
unfoldable pub on_handshake_timeout : Sender → Sender
unfolding fail
on_handshake_timeout s =
    if s.waiting_for_pin
    then s
    else if is_starting s.state
    then fail (codes "Timed out waiting for the device") s
    else s

-- `onPinTimeout_`
unfoldable pub on_pin_timeout : Sender → Sender
unfolding fail
on_pin_timeout s =
    if not s.waiting_for_pin
    then s
    else fail
        (codes "No PIN was entered. Switch "
          ++ (s.config.name
              ++ codes " on and make sure its screen shows the AirPlay code, then try again."))
        (record s { waiting_for_pin = false })

-- `!t.active || t.due > now` is false
unfoldable pub is_due : ℕ → Timer → Bool
is_due now t = t.active && leb t.due now

-- What `due` does to a timer that has run out.
unfoldable pub rearmed : ℕ → Timer → Timer
rearmed now t =
    if t.repeating then record t { due = now + t.interval } else record t { active = false }

-- `if (due(t)) handler()`, for one of the five timers.
unfoldable pub fire :
    (Timers → Timer) → (Timer → Timers → Timers) → (Sender → Sender) → Sender → Sender
unfolding is_due rearmed
fire get put handler s =
    let t = get s.timers in
    if is_due s.now t then handler (record s { timers = put (rearmed s.now t) s.timers }) else s

abbrev pub put_timeout : Timer → Timers → Timers
put_timeout t ts = record ts { timeout = t }

abbrev pub put_pin_timeout : Timer → Timers → Timers
put_pin_timeout t ts = record ts { pin_timeout = t }

abbrev pub put_feedback : Timer → Timers → Timers
put_feedback t ts = record ts { feedback_timer = t }

abbrev pub put_sync : Timer → Timers → Timers
put_sync t ts = record ts { sync_timer = t }

abbrev pub put_pacer : Timer → Timers → Timers
put_pacer t ts = record ts { pacer = t }

-- The loop of `nextDeadline` over the timers.
unfoldable pub sooner : Option ℕ → Timer → Option ℕ
sooner none t = if t.active then some t.due else none
sooner (some best) t = if t.active && ltb t.due best then some t.due else some best

-- `nextDeadline`
unfoldable pub next_deadline : Timers → Option ℕ
unfolding sooner
next_deadline ts =
    sooner (sooner (sooner (sooner (sooner none ts.pacer) ts.sync_timer) ts.timeout) ts.pin_timeout)
      ts.feedback_timer

module _ (b : Backend) where
  abbrev feedback_text : Sender → Bytes
  feedback_text s =
      opening s (codes "POST /feedback RTSP/1.0")
      ++ (identity_lines s ++ (line (codes "Content-Length") (codes "0") ++ crlf))

  -- `onFeedbackTimer_`
  unfoldable pub on_feedback_timer : Sender → Sender
  unfolding write_rtsp send_request
  on_feedback_timer s =
      if not (is_streaming s.state)
      then s
      else if s.config.airplay2
      then write_rtsp b (feedback_text s) (enqueue (codes "FEEDBACK") false (bump_cseq s))
      else send_request b (codes "POST") (codes "/feedback") [] [] [] s

  -- `tick`
  unfoldable pub tick : Sender → Sender
  unfolding fire on_handshake_timeout on_pin_timeout on_feedback_timer send_sync_packet
      on_pacer_tick
  tick s = fire Timers.pacer put_pacer (on_pacer_tick b) (
      fire Timers.sync_timer put_sync (send_sync_packet false) (
        fire Timers.feedback_timer put_feedback on_feedback_timer (
          fire Timers.pin_timeout put_pin_timeout on_pin_timeout
            (fire Timers.timeout put_timeout on_handshake_timeout s))))
