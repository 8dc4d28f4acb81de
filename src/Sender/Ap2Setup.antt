-- ===== src/Sender/Ap2Setup.antt =====
-- The AirPlay 2 SETUP of src/raop_sender.cpp: info, session, RECORD and stream. A null `ap2_` that
-- is dereferenced sets `fault`.
pub mod Invariant
use airplay2_sender_cpp.Base.{
  ℕ, ◌%◌, ◌^◌, true, false, [], Option, none, some, Bytes, codes, take, ◌==◌, if◌then◌else◌,
}
use airplay2_sender_cpp.Crypto.Backend.{Backend}
use airplay2_sender_cpp.Plist.{
  Value, boolean, integer, str, bytes, array, object, no_values, item, no_entries, entry, find,
  as_int,
}
use airplay2_sender_cpp.Plist.Encode.{encode}
use airplay2_sender_cpp.Plist.Decode.{decode}
use airplay2_sender_cpp.Sender.Stage.{PairStage}
use airplay2_sender_cpp.Sender.Action.{tcp_close, tcp_connect, RaopTcp}
use airplay2_sender_cpp.Sender.State.{Sender, Ap2, Identity, emit, crash}
use airplay2_sender_cpp.Sender.Request.{rtsp_uri, send_ap2_rtsp}
use airplay2_sender_cpp.Sender.Lifecycle.{fail}
use airplay2_sender_cpp.Sender.Handshake.{start_streaming}

abbrev pub at_stage : PairStage → Sender → Sender
at_stage stage s = record s { pair_stage = stage }

abbrev pub with_ap2 : Ap2 → Sender → Sender
with_ap2 a s = record s { ap2 = some a }

abbrev pub plist_type : Bytes
plist_type = codes "application/x-apple-binary-plist"

-- The dictionary of the session SETUP.
unfoldable pub session_plist : Identity → Bytes → ℕ → Value
session_plist id uuid timing_port = object (
    entry (codes "deviceID") (str id.device_id) (
      entry (codes "sessionUUID") (str uuid) (
        entry (codes "timingPort") (integer timing_port) (
          entry (codes "timingProtocol") (str (codes "NTP")) (
            entry (codes "isMultiSelectAirPlay") (boolean true) (
              entry (codes "groupContainsGroupLeader") (boolean false) (
                entry (codes "macAddress") (str id.device_id) (
                  entry (codes "model") (str id.model) (
                    entry (codes "name") (str id.name) (
                      entry (codes "osBuildVersion") (str (codes "20F66")) (
                        entry (codes "osName") (str (codes "iPhone OS")) (
                          entry (codes "osVersion") (str (codes "16.5")) (
                            entry (codes "senderSupportsRelay") (boolean false) (
                              entry (codes "sourceVersion") (str (codes "690.7.1")) (
                                entry (codes "statsCollectionEnabled") (boolean false)
                                  no_entries)))))))))))))))

-- The dictionary of the stream SETUP.
unfoldable pub stream_plist : ℕ → Bytes → ℕ → Value
stream_plist control_port key session_id =
    let stream = object (
      entry (codes "audioFormat") (integer 0x40000) (
        entry (codes "audioMode") (str (codes "default")) (
          entry (codes "controlPort") (integer control_port) (
            entry (codes "ct") (integer 2) (
              entry (codes "isMedia") (boolean true) (
                entry (codes "latencyMax") (integer 88200) (
                  entry (codes "latencyMin") (integer 11025) (
                    entry (codes "shk") (bytes key) (
                      entry (codes "spf") (integer 352) (
                        entry (codes "sr") (integer 44100) (
                          entry (codes "type") (integer 0x60) (
                            entry (codes "supportsDynamicStreamID") (boolean false) (
                              entry (codes "streamConnectionID") (integer session_id)
                                no_entries))))))))))))) in
    object (entry (codes "streams") (array (item stream no_values)) no_entries)

found : Option Value → Bytes → Option Value
unfolding find
found none key = none
found (some v) key = find v key

-- `uint16_t(p->asInt())` of an entry that is there.
port_or : ℕ → Option Value → ℕ
unfolding as_int
port_or old none = old
port_or old (some v) = as_int v % 2 ^ 16

first_of : Option Value → Option Value
first_of (some (array (item v vs))) = some v
first_of _ = none

-- The event port of the session reply.
unfoldable pub event_port_of : ℕ → Bytes → ℕ
unfolding found port_or decode
event_port_of old body = port_or old (found (decode body) (codes "eventPort"))

-- The data port and the control port of the stream reply, 0 if it has none.
unfoldable pub stream_ports_of : Bytes → ℕ × ℕ
unfolding found port_or first_of decode
stream_ports_of body =
    let first = first_of (found (decode body) (codes "streams")) in
    (port_or 0 (found first (codes "dataPort")), port_or 0 (found first (codes "controlPort")))

-- The first 32 bytes of the shared secret become the audio key.
unfoldable pub audio_keyed : Ap2 → Ap2
audio_keyed a = record a {
  audio_key = take 32 a.shared_secret;
  audio_nonce = 0;
  encrypt_audio = true;
}

module _ (b : Backend) where
  -- `sendAp2Info_`
  unfoldable pub send_ap2_info : Sender → Sender
  unfolding send_ap2_rtsp
  send_ap2_info s =
      send_ap2_rtsp b (codes "GET") (codes "/info") [] [] (at_stage PairStage.ap2_info s)

  session_setup_with : Sender → Option Ap2 → Sender
  unfolding send_ap2_rtsp
  session_setup_with s none = crash s
  session_setup_with s (some a) =
      send_ap2_rtsp b (codes "SETUP") (rtsp_uri s) plist_type
        (encode (session_plist s.config.identity a.session_uuid s.link.local_timing_port))
        (at_stage PairStage.ap2_session s)

  -- `sendAp2SetupSession_`
  unfoldable pub send_ap2_setup_session : Sender → Sender
  unfolding session_setup_with
  send_ap2_setup_session s = session_setup_with s s.ap2

  -- `sendAp2Record_`
  unfoldable pub send_ap2_record : Sender → Sender
  unfolding send_ap2_rtsp
  send_ap2_record s =
      send_ap2_rtsp b (codes "RECORD") (rtsp_uri s) [] [] (at_stage PairStage.ap2_record s)

  open_events : ℕ → Sender → Sender
  open_events port s =
      if port == 0
      then s
      else emit (tcp_connect RaopTcp.event s.link.host_ip port)
          (emit (tcp_close RaopTcp.event false) s)

  session_reply_with : Bytes → Sender → Option Ap2 → Sender
  unfolding send_ap2_record open_events
  session_reply_with body s none = crash s
  session_reply_with body s (some a) =
      let port = event_port_of a.event_port body in
      send_ap2_record (open_events port (with_ap2 (record a { event_port = port }) s))

  -- `handleAp2SetupSession_`
  unfoldable pub handle_ap2_setup_session : Bytes → Sender → Sender
  unfolding session_reply_with
  handle_ap2_setup_session body s = session_reply_with body s s.ap2

  stream_setup_with : Sender → Option Ap2 → Sender
  unfolding send_ap2_rtsp audio_keyed
  stream_setup_with s none = crash s
  stream_setup_with s (some a) =
      send_ap2_rtsp b (codes "SETUP") (rtsp_uri s) plist_type
        (encode
          (stream_plist s.link.local_control_port (take 32 a.shared_secret) s.session.session_id))
        (at_stage PairStage.ap2_stream (with_ap2 (audio_keyed a) s))

  -- `sendAp2SetupStream_`
  unfoldable pub send_ap2_setup_stream : Sender → Sender
  unfolding stream_setup_with
  send_ap2_setup_stream s = stream_setup_with s s.ap2

  -- `handleAp2SetupStream_`
  unfoldable pub handle_ap2_setup_stream : Bytes → Sender → Sender
  unfolding fail start_streaming
  handle_ap2_setup_stream body s =
      let (data_port, control_port) = stream_ports_of body in
      if data_port == 0
      then fail (codes "AirPlay 2 stream SETUP returned no data port")
          (record s { ports = record (s.ports) { server_port = 0; control_port = control_port } })
      else start_streaming b (record s {
        ports = record {
          server_port = data_port;
          control_port = if control_port == 0 then data_port else control_port;
          timing_port = data_port;
        };
      })
