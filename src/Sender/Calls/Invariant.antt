-- ===== src/Sender/Calls/Invariant.antt =====
-- The senders of src/raop_sender.h that an application and a host can reach, and that the invariant
-- holds of each.
use airplay2_sender_cpp.Base.{ℕ, Bytes, refl, arith, if-both}
use airplay2_sender_cpp.Crypto.Backend.{Backend}
use airplay2_sender_cpp.Sender.Action.{RaopTcp}
use airplay2_sender_cpp.Sender.State.{Sender}
use airplay2_sender_cpp.Sender.Invariant.{Facts, Inv, same-Inv}
use airplay2_sender_cpp.Sender.Lifecycle.Invariant.{
  start-Inv, stop-Inv, on_tcp_closed-Inv, on_tcp_connect_failed-Inv,
}
use airplay2_sender_cpp.Sender.Rtp.Invariant.{on_udp_datagram-Inv}
use airplay2_sender_cpp.Sender.Handshake.Invariant.{set_volume-Inv, set_now_playing-Inv}
use airplay2_sender_cpp.Sender.Pairing.Setup.Invariant.{submit_pin-Inv}
use airplay2_sender_cpp.Sender.Pairing.Replies.Invariant.{on_tcp_connected-Inv}
use airplay2_sender_cpp.Sender.Receive.Invariant.{on_rtsp_ready_read-Inv}
use airplay2_sender_cpp.Sender.Events.Invariant.{on_event_ready_read-Inv}
use airplay2_sender_cpp.Sender.Timers.Invariant.{tick-Inv}
use airplay2_sender_cpp.Sender.Calls.{
  new_sender, set_identity, set_auth, attach_ring, set_strict_auth, set_input_format, Call,
  on_tcp_data, perform, step,
}

-- What any number of calls makes of a new sender.
pub data Reachable (b : Backend) : Sender → Type 0 where
  created : Reachable b new_sender
  called :
      (now wall : ℕ) (call : Call) (s : Sender)
      → Reachable b s
      → Reachable b (step b now wall call s)

new_sender-Inv : Inv new_sender
new_sender-Inv = same-Inv (refl, refl, refl, omega arith, (refl, omega arith), refl)

module _ (b : Backend) where
  on_tcp_data-Inv :
      (ch : RaopTcp) (bytes : Bytes) (s : Sender) → Inv s → Inv (on_tcp_data b ch bytes s)
  unfolding on_tcp_data
  on_tcp_data-Inv RaopTcp.control bytes s i = on_rtsp_ready_read-Inv b bytes s i
  on_tcp_data-Inv RaopTcp.event bytes s i = on_event_ready_read-Inv b bytes s i

  perform-Inv : (call : Call) (s : Sender) → Inv s → Inv (perform b call s)
  unfolding perform set_identity set_auth attach_ring set_strict_auth set_input_format
  perform-Inv (Call.identity_call id) s i = same-Inv i.facts
  perform-Inv (Call.auth_call auth airplay2 device_id creds_json password) s i = same-Inv i.facts
  perform-Inv (Call.ring_call ring) s i = same-Inv i.facts
  perform-Inv (Call.strict_call strict) s i = same-Inv i.facts
  perform-Inv (Call.format_call rate) s i = same-Inv i.facts
  perform-Inv (Call.start_call host port name timing control audio) s i =
      start-Inv b host port name timing control audio s i
  perform-Inv Call.stop_call s i = stop-Inv b s i
  perform-Inv Call.tick_call s i = tick-Inv b s i
  perform-Inv (Call.pin_call code) s i = submit_pin-Inv b code s i
  perform-Inv (Call.volume_call pct) s i = set_volume-Inv b pct s i
  perform-Inv (Call.playing_call np) s i = set_now_playing-Inv b np s i
  perform-Inv (Call.connected_call ch local peer) s i = on_tcp_connected-Inv b ch local peer s i
  perform-Inv (Call.connect_failed_call ch reason) s i = on_tcp_connect_failed-Inv ch reason s i
  perform-Inv (Call.data_call ch bytes) s i = on_tcp_data-Inv ch bytes s i
  perform-Inv (Call.closed_call ch reason) s i = on_tcp_closed-Inv ch reason s i
  perform-Inv (Call.datagram_call u dg from) s i = on_udp_datagram-Inv u dg from s i

  step-Inv : (now wall : ℕ) (call : Call) (s : Sender) → Inv s → Inv (step b now wall call s)
  unfolding step
  step-Inv now wall call s i =
      let u = record s { now = now; wall = wall } in
      if-both Inv s.fault _ _ i (perform-Inv call u (same-Inv i.facts))

  Reachable-Inv : (s : Sender) → Reachable b s → Inv s
  Reachable-Inv _ created = new_sender-Inv
  Reachable-Inv _ (called now wall call s r) = step-Inv now wall call s (Reachable-Inv s r)

  -- After any sequence of calls, at whatever times and with whatever bytes from the receiver, the
  -- queue of methods and the queue of protocols that route replies are of one length, the backlog of
  -- packets and its tags have 1024 slots, the frame counter is below 2^64, the staging buffer of the
  -- resampler holds whole frames, at most 8192 of them, and a sender that is idle has neither a control
  -- connection nor bound sockets.
  pub Reachable-Facts : (s : Sender) → Reachable b s → Facts s
  Reachable-Facts s r = (Reachable-Inv s r).facts
