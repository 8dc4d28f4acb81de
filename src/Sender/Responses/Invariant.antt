-- ===== src/Sender/Responses/Invariant.antt =====
-- `handleResponse_` of src/raop_sender.cpp keeps the invariant.
use airplay2_sender_cpp.Base.{
  if◌then◌else◌, true, not, ◌&&◌, ◌||◌, [], ◌++◌, Bytes, codes, bytes_eq, ◌==◌, if-both,
}
use airplay2_sender_cpp.Crypto.Backend.{Backend}
use airplay2_sender_cpp.Text.{Headers, header_value}
use airplay2_sender_cpp.Text.Numbers.{ℤ}
use airplay2_sender_cpp.Sender.Stage.{is_streaming}
use airplay2_sender_cpp.Sender.State.{Sender}
use airplay2_sender_cpp.Sender.Request.{is_empty}
use airplay2_sender_cpp.Sender.Handshake.{arm_feedback}
use airplay2_sender_cpp.Sender.Pairing.Replies.{is_code, is_success, int_text}
use airplay2_sender_cpp.Sender.Invariant.{Inv, same-Inv}
use airplay2_sender_cpp.Sender.Lifecycle.Invariant.{fail-Inv}
use airplay2_sender_cpp.Sender.Handshake.Invariant.{
  send_options-Inv, send_announce-Inv, send_setup-Inv, send_record-Inv, start_streaming-Inv,
}
use airplay2_sender_cpp.Sender.Responses.{
  extract_quoted, transport_ports, disarm_feedback, on_feedback_reply, reissue, on_challenge,
  on_setup_reply, on_accepted, on_refused, handle_response,
}

on_feedback_reply-Inv : (code : ℤ) (s : Sender) → Inv s → Inv (on_feedback_reply code s)
unfolding on_feedback_reply
on_feedback_reply-Inv code s i =
    if-both Inv (is_code 200 code) _ _
      (if-both Inv s.timers.feedback_timer.active s (arm_feedback s) i (same-Inv i.facts))
      (same-Inv {t = disarm_feedback s} i.facts)

module _ (b : Backend) where
  reissue-Inv : (method : Bytes) (s : Sender) → Inv s → Inv (reissue b method s)
  unfolding reissue
  reissue-Inv method s i =
      if-both Inv (bytes_eq method (codes "OPTIONS")) _ _ (send_options-Inv b s i) (
        if-both Inv (bytes_eq method (codes "ANNOUNCE")) _ _ (send_announce-Inv b s i) (
          if-both Inv (bytes_eq method (codes "SETUP")) _ _ (send_setup-Inv b s i) (
            if-both Inv (bytes_eq method (codes "RECORD")) _ _ (send_record-Inv b s i)
              (fail-Inv (codes "The device password was required at an unexpected step") s i))))

  on_challenge-Inv :
      (method : Bytes) (headers : Headers) (s : Sender)
      → Inv s
      → Inv (on_challenge b method headers s)
  unfolding on_challenge
  on_challenge-Inv method headers s i =
      let wa = header_value headers (codes "www-authenticate") [] in
      let realm = extract_quoted (codes "realm=") wa in
      let nonce = extract_quoted (codes "nonce=") wa in
      let t = record s { digest = record (s.digest) { realm = realm; nonce = nonce } } in
      if-both Inv (is_empty s.config.digest_password) _ _
        (fail-Inv (codes "The device requires a password") s i)
        (if-both Inv s.digest.retried _ _
          (fail-Inv (codes "The password was not accepted by the device") s i)
          (if-both Inv (is_empty nonce) _ _
            (fail-Inv (codes "The device password challenge could not be parsed") t
              (same-Inv i.facts))
            (reissue-Inv method (record t { digest = record (t.digest) { retried = true } })
              (same-Inv i.facts))))

  on_setup_reply-Inv : (headers : Headers) (s : Sender) → Inv s → Inv (on_setup_reply b headers s)
  unfolding on_setup_reply
  on_setup_reply-Inv headers s i =
      let session = header_value headers (codes "session") [] in
      let t = record s {
        ports = transport_ports (header_value headers (codes "transport") []);
        session = record (s.session) {
          rtsp_session = if is_empty session then codes "1" else session;
        };
      } in
      if-both Inv (t.ports.server_port == 0) _ _
        (fail-Inv (codes "SETUP reply carried no server_port") t (same-Inv i.facts))
        (send_record-Inv b t (same-Inv i.facts))

  on_accepted-Inv :
      (method : Bytes) (headers : Headers) (s : Sender)
      → Inv s
      → Inv (on_accepted b method headers s)
  unfolding on_accepted
  on_accepted-Inv method headers s i =
      if-both Inv (bytes_eq method (codes "OPTIONS")) _ _ (send_announce-Inv b s i) (
        if-both Inv (bytes_eq method (codes "ANNOUNCE")) _ _ (send_setup-Inv b s i) (
          if-both Inv (bytes_eq method (codes "SETUP")) _ _ (on_setup_reply-Inv headers s i) (
            if-both Inv (bytes_eq method (codes "RECORD")) _ _
              (if-both Inv (is_streaming s.state) _ _ i (start_streaming-Inv b s i)) i)))

  on_refused-Inv :
      (method : Bytes) (code : ℤ) (s : Sender) → Inv s → Inv (on_refused b method code s)
  unfolding on_refused
  on_refused-Inv method code s i =
      if-both Inv
        (is_streaming s.state
          && (bytes_eq method (codes "RECORD") || bytes_eq method (codes "FLUSH")))
        _ _ i
        (fail-Inv
          (codes "Device refused " ++ (method ++ (codes " (" ++ (int_text code ++ codes ")")))) s i)

  pub handle_response-Inv :
      (method : Bytes) (code : ℤ) (headers : Headers) (s : Sender)
      → Inv s
      → Inv (handle_response b method code headers s)
  unfolding handle_response
  handle_response-Inv method code headers s i =
      if-both Inv (bytes_eq method (codes "SET_PARAMETER")) _ _ i (
        if-both Inv (bytes_eq method (codes "POST")) _ _ (on_feedback_reply-Inv code s i) (
          if-both Inv (bytes_eq method (codes "FEEDBACK")) _ _ i (
            if-both Inv (bytes_eq method (codes "TEARDOWN")) _ _ i (
              if-both Inv (is_code 401 code) _ _ (on_challenge-Inv method headers s i) (
                if-both Inv (not (is_success code)) _ _ (on_refused-Inv method code s i)
                  (on_accepted-Inv method headers s i))))))
