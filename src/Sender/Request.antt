-- ===== src/Sender/Request.antt =====
-- The request plumbing of src/raop_sender.cpp: `sendRequest_`, `httpPost_`, `sendAp2Rtsp_` and
-- `writeRtsp_`. A call from which an exception escapes sets `fault`.
pub mod Effects
use airplay2_sender_cpp.Base.{
  ℕ, zero, suc, ◌+◌, ◌*◌, Bool, true, false, not, ◌&&◌, ◌||◌, List, [], ◌∷◌, ◌++◌, Option, none,
  some, Bytes, codes, bytes_eq, length, if◌then◌else◌,
}
use airplay2_sender_cpp.Crypto.Backend.{Backend}
use airplay2_sender_cpp.Crypto.Curves.{digest_auth_response}
use airplay2_sender_cpp.Frames.{frames}
use airplay2_sender_cpp.Text.{Headers}
use airplay2_sender_cpp.Text.Numbers.{to_string}
use airplay2_sender_cpp.Sender.Auth.{is_transient}
use airplay2_sender_cpp.Sender.Stage.{is_shaking}
use airplay2_sender_cpp.Sender.Action.{tcp_send, RaopTcp, Action}
use airplay2_sender_cpp.Sender.State.{Sender, Session, Channel, Ap2, emit, crash, arm_timeout}

abbrev pub is_empty : Bytes → Bool
is_empty [] = true
is_empty (x ∷ xs) = false

abbrev pub crlf : Bytes
crlf = 13 ∷ (10 ∷ [])

-- `name + ": " + value + "\r\n"`
abbrev pub line : Bytes → Bytes → Bytes
line name value = name ++ (codes ": " ++ (value ++ crlf))

-- A line that is left out when its value is empty.
unfoldable pub optional_line : Bytes → Bytes → Bytes
optional_line name value = if is_empty value then [] else line name value

-- The `extra` headers.
unfoldable pub extra_lines : Headers → Bytes
extra_lines [] = []
extra_lines ((k, v) ∷ h) = line k v ++ extra_lines h

abbrev pub body_length : Bytes → Bytes
body_length body =
    if is_empty body then [] else line (codes "Content-Length") (to_string (length body))

-- `rtspUri_`
unfoldable pub rtsp_uri : Sender → Bytes
rtsp_uri s = codes "rtsp://" ++ (s.link.local_ip ++ (codes "/" ++ to_string s.session.session_id))

-- The two lines that start every request, with the CSeq.
abbrev pub opening : Sender → Bytes → Bytes
opening s request_line =
    request_line
    ++ (crlf
        ++ (line (codes "CSeq") (to_string s.session.cseq)
            ++ line (codes "User-Agent") (codes "AirPlay/550.10")))

-- The lines that identify the sender.
abbrev pub identity_lines : Sender → Bytes
identity_lines s =
    line (codes "DACP-ID") s.session.dacp_id
    ++ (line (codes "Active-Remote") (to_string s.session.active_remote)
        ++ line (codes "Client-Instance") s.session.dacp_id)

abbrev pub client_name : Sender → Bytes
client_name s = line (codes "X-Apple-Client-Name") s.config.identity.name

-- `cseq_++`
abbrev pub bump_cseq : Sender → Sender
bump_cseq s = record s { session = record (s.session) { cseq = suc s.session.cseq } }

-- A request joins both queues.
abbrev pub enqueue : Bytes → Bool → Sender → Sender
enqueue method is_http s = record s {
  pending_methods = s.pending_methods ++ (method ∷ []);
  pending_is_http = s.pending_is_http ++ (is_http ∷ []);
}

send_framed : Sender → Option (Bytes × ℕ) → Sender
send_framed s none = crash s
send_framed s (some (out, ctr)) =
    emit (tcp_send RaopTcp.control out)
      (record s { chan = record (s.chan) { ctrl_send_ctr = ctr } })

module _ (b : Backend) where
  write_keyed : Bytes → Sender → Option Ap2 → Sender
  unfolding send_framed
  write_keyed text s none = emit (tcp_send RaopTcp.control text) s
  write_keyed text s (some a) = send_framed s (frames b a.control_out s.chan.ctrl_send_ctr text)

  -- `writeRtsp_`
  unfoldable pub write_rtsp : Bytes → Sender → Sender
  unfolding write_keyed
  write_rtsp text s =
      if not s.chan.control_encrypted
      then emit (tcp_send RaopTcp.control text) s
      else write_keyed text s s.ap2

  -- The `Authorization` line.
  unfoldable pub authorization : Sender → Bytes → Bytes → Bytes
  authorization s method uri =
      if not (is_empty s.digest.nonce) && not (is_empty s.config.digest_password)
      then line (codes "Authorization") (
          digest_auth_response b method uri (codes "iTunes") s.digest.realm s.config.digest_password
            s.digest.nonce)
      else []

  abbrev pub request_text : Sender → Bytes → Bytes → Bytes → Bytes → Headers → Bytes
  request_text s method uri content_type body extra =
      opening s (method ++ (codes " " ++ (uri ++ codes " RTSP/1.0")))
      ++ (identity_lines s
          ++ (client_name s
              ++ (authorization s method uri
                  ++ (extra_lines extra
                      ++ (optional_line (codes "Content-Type") content_type
                          ++ (body_length body ++ (crlf ++ body)))))))

  -- `sendRequest_`
  unfoldable pub send_request : Bytes → Bytes → Bytes → Bytes → Headers → Sender → Sender
  unfolding write_rtsp
  send_request method uri content_type body extra s =
      let sent =
        write_rtsp (request_text s method uri content_type body extra)
          (enqueue method false (bump_cseq s)) in
      if is_shaking s.state then arm_timeout sent else sent

  abbrev pub post_text : Sender → Bytes → Bytes → Bytes → Bytes
  post_text s uri content_type body =
      opening s (codes "POST " ++ (uri ++ codes " HTTP/1.1"))
      ++ (line (codes "Connection") (codes "keep-alive")
          ++ (line (codes "X-Apple-HKP")
                (if is_transient s.auth_method then codes "4" else codes "3")
              ++ (identity_lines s
                  ++ (client_name s
                      ++ (optional_line (codes "Content-Type") content_type
                          ++ (line (codes "Content-Length") (to_string (length body))
                              ++ (crlf ++ body)))))))

  -- `httpPost_`
  unfoldable pub http_post : Bytes → Bytes → Bytes → Sender → Sender
  unfolding write_rtsp
  http_post uri content_type body s =
      let sent =
        write_rtsp (post_text s uri content_type body)
          (enqueue (codes "POST") true (bump_cseq s)) in
      if not s.waiting_for_pin then arm_timeout sent else sent

  abbrev pub ap2_text : Sender → Bytes → Bytes → Bytes → Bytes → Bytes
  ap2_text s method uri content_type body =
      opening s (method ++ (codes " " ++ (uri ++ codes " RTSP/1.0")))
      ++ (identity_lines s
          ++ (client_name s
              ++ ((if bytes_eq method (codes "SETUP")
                    then line (codes "X-Apple-StreamID") (codes "1")
                    else [])
                  ++ (optional_line (codes "Content-Type") content_type
                      ++ (body_length body ++ (crlf ++ body))))))

  -- `sendAp2Rtsp_`
  unfoldable pub send_ap2_rtsp : Bytes → Bytes → Bytes → Bytes → Sender → Sender
  unfolding write_rtsp
  send_ap2_rtsp method uri content_type body s =
      arm_timeout
        (write_rtsp (ap2_text s method uri content_type body) (enqueue method true (bump_cseq s)))
