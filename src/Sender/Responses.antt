-- ===== src/Sender/Responses.antt =====
-- `handleResponse_` of src/raop_sender.cpp: the replies to the requests of `sendRequest_`.
pub mod Challenge
pub mod Invariant
use airplay2_sender_cpp.Base.{
  ◌%◌, ◌^◌, true, not, ◌&&◌, ◌||◌, List, [], ◌∷◌, ◌++◌, Option, none, some, ◌>>=◌, Bytes, codes,
  bytes_eq, ◌==◌, if◌then◌else◌,
}
use airplay2_sender_cpp.Crypto.Backend.{Backend}
use airplay2_sender_cpp.Text.{Headers, find_split, split_on, trim_ascii, header_value}
use airplay2_sender_cpp.Text.Numbers.{ℤ, to_uint}
use airplay2_sender_cpp.Sender.Stage.{is_streaming}
use airplay2_sender_cpp.Sender.State.{Sender, Ports, disarm}
use airplay2_sender_cpp.Sender.Request.{is_empty}
use airplay2_sender_cpp.Sender.Lifecycle.{fail}
use airplay2_sender_cpp.Sender.Handshake.{
  send_options, send_announce, send_setup, send_record, start_streaming, arm_feedback,
}
use airplay2_sender_cpp.Sender.Pairing.Replies.{is_code, is_success, int_text}

-- `extractQuoted`: what stands between the first two quotes from the key on.
quoted_after : Bytes → Bytes → Option Bytes
unfolding find_split
quoted_after key wa = do
  (_, from_key) ← find_split key wa
  (_, from_quote) ← find_split (codes "\"") (key ++ from_key)
  (value, _) ← find_split (codes "\"") from_quote
  some value

or_empty : Option Bytes → Bytes
or_empty none = []
or_empty (some v) = v

unfoldable pub extract_quoted : Bytes → Bytes → Bytes
unfolding quoted_after or_empty
extract_quoted key wa = or_empty (quoted_after key wa)

-- One option of a `Transport` header: its key and value, if it has both.
unfoldable pub assign_port : Option (Bytes × Bytes) → Ports → Ports
unfolding trim_ascii bytes_eq to_uint
assign_port none p = p
assign_port (some (before, behind)) p =
    let key = trim_ascii before in
    let val = to_uint (trim_ascii behind) % 2 ^ 16 in
    if is_empty before
    then p
    else if bytes_eq key (codes "server_port")
    then record p { server_port = val }
    else if bytes_eq key (codes "control_port")
    then record p { control_port = val }
    else if bytes_eq key (codes "timing_port")
    then record p { timing_port = val }
    else p

unfoldable pub assign_ports : List Bytes → Ports → Ports
unfolding assign_port find_split
assign_ports [] p = p
assign_ports (opt ∷ opts) p = assign_ports opts (assign_port (find_split (codes "=") opt) p)

-- The ports of a `Transport` header.
unfoldable pub transport_ports : Bytes → Ports
unfolding assign_ports split_on
transport_ports transport =
    assign_ports (split_on b';' transport)
      (record { server_port = 0; control_port = 0; timing_port = 0 })

abbrev pub disarm_feedback : Sender → Sender
disarm_feedback s = record s {
  timers = record (s.timers) { feedback_timer = disarm s.timers.feedback_timer };
}

-- The reply to the AirPlay 1 keep-alive.
unfoldable pub on_feedback_reply : ℤ → Sender → Sender
unfolding is_code
on_feedback_reply code s =
    if is_code 200 code
    then (if s.timers.feedback_timer.active then s else arm_feedback s)
    else disarm_feedback s

module _ (b : Backend) where
  -- The request that a challenge has rejected goes out again.
  unfoldable pub reissue : Bytes → Sender → Sender
  unfolding bytes_eq send_options send_announce send_setup send_record fail
  reissue method s =
      if bytes_eq method (codes "OPTIONS")
      then send_options b s
      else if bytes_eq method (codes "ANNOUNCE")
      then send_announce b s
      else if bytes_eq method (codes "SETUP")
      then send_setup b s
      else if bytes_eq method (codes "RECORD")
      then send_record b s
      else fail (codes "The device password was required at an unexpected step") s

  -- Code 401: one retry with the digest of the challenge.
  unfoldable pub on_challenge : Bytes → Headers → Sender → Sender
  unfolding extract_quoted header_value reissue fail
  on_challenge method headers s =
      let wa = header_value headers (codes "www-authenticate") [] in
      let realm = extract_quoted (codes "realm=") wa in
      let nonce = extract_quoted (codes "nonce=") wa in
      let t = record s { digest = record (s.digest) { realm = realm; nonce = nonce } } in
      if is_empty s.config.digest_password
      then fail (codes "The device requires a password") s
      else if s.digest.retried
      then fail (codes "The password was not accepted by the device") s
      else if is_empty nonce
      then fail (codes "The device password challenge could not be parsed") t
      else reissue method (record t { digest = record (t.digest) { retried = true } })

  -- The reply to SETUP: the ports and the session.
  unfoldable pub on_setup_reply : Headers → Sender → Sender
  unfolding transport_ports header_value send_record fail
  on_setup_reply headers s =
      let session = header_value headers (codes "session") [] in
      let t = record s {
        ports = transport_ports (header_value headers (codes "transport") []);
        session = record (s.session) {
          rtsp_session = if is_empty session then codes "1" else session;
        };
      } in
      if t.ports.server_port == 0
      then fail (codes "SETUP reply carried no server_port") t
      else send_record b t

  -- The reply to a request that succeeded.
  unfoldable pub on_accepted : Bytes → Headers → Sender → Sender
  unfolding bytes_eq send_announce send_setup on_setup_reply start_streaming
  on_accepted method headers s =
      if bytes_eq method (codes "OPTIONS")
      then send_announce b s
      else if bytes_eq method (codes "ANNOUNCE")
      then send_setup b s
      else if bytes_eq method (codes "SETUP")
      then on_setup_reply headers s
      else if bytes_eq method (codes "RECORD")
      then (if is_streaming s.state then s else start_streaming b s)
      else s

  unfoldable pub on_refused : Bytes → ℤ → Sender → Sender
  unfolding bytes_eq int_text fail
  on_refused method code s =
      if is_streaming s.state
        && (bytes_eq method (codes "RECORD") || bytes_eq method (codes "FLUSH"))
      then s
      else fail
          (codes "Device refused " ++ (method ++ (codes " (" ++ (int_text code ++ codes ")")))) s

  -- `handleResponse_`
  unfoldable pub handle_response : Bytes → ℤ → Headers → Sender → Sender
  unfolding bytes_eq on_feedback_reply on_challenge on_refused on_accepted is_code is_success
  handle_response method code headers s =
      if bytes_eq method (codes "SET_PARAMETER")
      then s
      else if bytes_eq method (codes "POST")
      then on_feedback_reply code s
      else if bytes_eq method (codes "FEEDBACK")
      then s
      else if bytes_eq method (codes "TEARDOWN")
      then s
      else if is_code 401 code
      then on_challenge method headers s
      else if not (is_success code)
      then on_refused method code s
      else on_accepted method headers s
