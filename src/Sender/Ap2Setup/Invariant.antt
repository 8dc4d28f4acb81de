-- ===== src/Sender/Ap2Setup/Invariant.antt =====
-- The AirPlay 2 SETUP of src/raop_sender.cpp keeps the invariant.
use airplay2_sender_cpp.Base.{
  ℕ, true, [], Option, none, some, Bytes, codes, take, ◌==◌, if-both, if◌then◌else◌,
}
use airplay2_sender_cpp.Crypto.Backend.{Backend}
use airplay2_sender_cpp.Plist.Encode.{encode}
use airplay2_sender_cpp.Sender.Stage.{PairStage}
use airplay2_sender_cpp.Sender.State.{Sender, Ap2}
use airplay2_sender_cpp.Sender.Request.{rtsp_uri, send_ap2_rtsp}
use airplay2_sender_cpp.Sender.Request.Effects.{send_ap2_rtsp-Requests}
use airplay2_sender_cpp.Sender.Invariant.{Inv, same-Inv, Requests-Inv}
use airplay2_sender_cpp.Sender.Lifecycle.Invariant.{fail-Inv}
use airplay2_sender_cpp.Sender.Handshake.Invariant.{start_streaming-Inv}
use airplay2_sender_cpp.Sender.Ap2Setup.{
  at_stage, with_ap2, plist_type, session_plist, stream_plist, audio_keyed, send_ap2_info,
  session_setup_with, send_ap2_setup_session, send_ap2_record, open_events, session_reply_with,
  handle_ap2_setup_session, stream_setup_with, send_ap2_setup_stream, handle_ap2_setup_stream,
  event_port_of, stream_ports_of,
}

module _ (b : Backend) where
  send_ap2_rtsp-Inv :
      (method uri content_type body : Bytes) (s : Sender)
      → Inv s
      → Inv (send_ap2_rtsp b method uri content_type body s)
  send_ap2_rtsp-Inv method uri content_type body s i =
      Requests-Inv b method true s _ (send_ap2_rtsp-Requests b method uri content_type body s) i

  pub send_ap2_info-Inv : (s : Sender) → Inv s → Inv (send_ap2_info b s)
  unfolding send_ap2_info
  send_ap2_info-Inv s i =
      send_ap2_rtsp-Inv (codes "GET") (codes "/info") [] [] (at_stage PairStage.ap2_info s)
        (same-Inv i.facts)

  session_setup_with-Inv : (s : Sender) (o : Option Ap2) → Inv s → Inv (session_setup_with b s o)
  unfolding session_setup_with
  session_setup_with-Inv s none i = same-Inv i.facts
  session_setup_with-Inv s (some a) i =
      send_ap2_rtsp-Inv (codes "SETUP") (rtsp_uri s) plist_type
        (encode (session_plist s.config.identity a.session_uuid s.link.local_timing_port))
        (at_stage PairStage.ap2_session s) (same-Inv i.facts)

  pub send_ap2_setup_session-Inv : (s : Sender) → Inv s → Inv (send_ap2_setup_session b s)
  unfolding send_ap2_setup_session
  send_ap2_setup_session-Inv s i = session_setup_with-Inv s s.ap2 i

  send_ap2_record-Inv : (s : Sender) → Inv s → Inv (send_ap2_record b s)
  unfolding send_ap2_record
  send_ap2_record-Inv s i =
      send_ap2_rtsp-Inv (codes "RECORD") (rtsp_uri s) [] [] (at_stage PairStage.ap2_record s)
        (same-Inv i.facts)

  open_events-Inv : (port : ℕ) (s : Sender) → Inv s → Inv (open_events b port s)
  unfolding open_events
  open_events-Inv port s i = if-both Inv (port == 0) _ _ i (same-Inv i.facts)

  session_reply_with-Inv :
      (body : Bytes) (s : Sender) (o : Option Ap2) → Inv s → Inv (session_reply_with b body s o)
  unfolding session_reply_with
  session_reply_with-Inv body s none i = same-Inv i.facts
  session_reply_with-Inv body s (some a) i =
      let port = event_port_of a.event_port body in
      let t = with_ap2 (record a { event_port = port }) s in
      send_ap2_record-Inv (open_events b port t) (open_events-Inv port t (same-Inv i.facts))

  pub handle_ap2_setup_session-Inv :
      (body : Bytes) (s : Sender) → Inv s → Inv (handle_ap2_setup_session b body s)
  unfolding handle_ap2_setup_session
  handle_ap2_setup_session-Inv body s i = session_reply_with-Inv body s s.ap2 i

  stream_setup_with-Inv : (s : Sender) (o : Option Ap2) → Inv s → Inv (stream_setup_with b s o)
  unfolding stream_setup_with
  stream_setup_with-Inv s none i = same-Inv i.facts
  stream_setup_with-Inv s (some a) i =
      send_ap2_rtsp-Inv (codes "SETUP") (rtsp_uri s) plist_type
        (encode
          (stream_plist s.link.local_control_port (take 32 a.shared_secret) s.session.session_id))
        (at_stage PairStage.ap2_stream (with_ap2 (audio_keyed a) s)) (same-Inv i.facts)

  pub send_ap2_setup_stream-Inv : (s : Sender) → Inv s → Inv (send_ap2_setup_stream b s)
  unfolding send_ap2_setup_stream
  send_ap2_setup_stream-Inv s i = stream_setup_with-Inv s s.ap2 i

  pub handle_ap2_setup_stream-Inv :
      (body : Bytes) (s : Sender) → Inv s → Inv (handle_ap2_setup_stream b body s)
  unfolding handle_ap2_setup_stream
  handle_ap2_setup_stream-Inv body s i =
      let data_port = (stream_ports_of body).0 in
      let control_port = (stream_ports_of body).1 in
      let t = record s {
        ports = record (s.ports) { server_port = 0; control_port = control_port };
      } in
      let u = record s {
        ports = record {
          server_port = data_port;
          control_port = if control_port == 0 then data_port else control_port;
          timing_port = data_port;
        };
      } in
      if-both Inv (data_port == 0) _ _
        (fail-Inv (codes "AirPlay 2 stream SETUP returned no data port") t (same-Inv i.facts))
        (start_streaming-Inv b u (same-Inv i.facts))
