-- ===== src/Sender/Handshake/Invariant.antt =====
-- The AirPlay 1 handshake, the volume and the metadata of src/raop_sender.cpp keep the invariant.
use airplay2_sender_cpp.Base.{
  ◌*◌, if◌then◌else◌, refl, ◌<◌, ◌^◌, true, false, not, ◌&&◌, [], ◌∷◌, ◌++◌, Option, none, some,
  Bytes, codes, if-both, arith, length, leb,
}
use airplay2_sender_cpp.Crypto.Backend.{Backend}
use airplay2_sender_cpp.Text.{Headers, dmap_tag}
use airplay2_sender_cpp.Sender.Stage.{is_streaming}
use airplay2_sender_cpp.Sender.State.{Sender, NowPlaying, ms}
use airplay2_sender_cpp.Sender.Request.{rtsp_uri, is_empty, send_request}
use airplay2_sender_cpp.Sender.Request.Effects.{send_request-Requests}
use airplay2_sender_cpp.Sender.Invariant.{Inv, same-Inv, Requests-Inv}
use airplay2_sender_cpp.Sender.Rtp.{send_sync_packet}
use airplay2_sender_cpp.Sender.Rtp.Invariant.{send_sync_packet-Inv}
use airplay2_sender_cpp.Sender.Lifecycle.{session_header}
use airplay2_sender_cpp.Doubles.{Double}
use airplay2_sender_cpp.Sender.Volume.{dbfs, fixed6}
use airplay2_sender_cpp.Sender.Handshake.{
  announce_sdp, setup_header, rtp_info, same_playing, send_options, send_announce, send_setup,
  send_record, send_volume, set_volume, metadata_header, metadata_text, send_text, send_cover,
  send_metadata, set_now_playing, push_volume, apply_volume, start_feedback, start_streaming,
  anchor, arm_sync, arm_feedback, arm_pacer, feedback_every, initial_volume,
}

module _ (b : Backend) where
  pub send_request-Inv :
      (method uri content_type body : Bytes) (extra : Headers) (s : Sender)
      → Inv s
      → Inv (send_request b method uri content_type body extra s)
  send_request-Inv method uri content_type body extra s i =
      Requests-Inv b method false s _ (send_request-Requests b method uri content_type body extra s)
        i

  pub send_options-Inv : (s : Sender) → Inv s → Inv (send_options b s)
  unfolding send_options
  send_options-Inv s i = send_request-Inv (codes "OPTIONS") (codes "*") [] [] [] s i

  pub send_announce-Inv : (s : Sender) → Inv s → Inv (send_announce b s)
  unfolding send_announce
  send_announce-Inv s i =
      send_request-Inv (codes "ANNOUNCE") (rtsp_uri s) (codes "application/sdp") (announce_sdp s) []
        s i

  pub send_setup-Inv : (s : Sender) → Inv s → Inv (send_setup b s)
  unfolding send_setup
  send_setup-Inv s i = send_request-Inv (codes "SETUP") (rtsp_uri s) [] [] (setup_header b s) s i

  pub send_record-Inv : (s : Sender) → Inv s → Inv (send_record b s)
  unfolding send_record
  send_record-Inv s i =
      send_request-Inv (codes "RECORD") (rtsp_uri s) [] []
        ((codes "Range", codes "npt=0-") ∷ ((codes "RTP-Info", rtp_info s) ∷ session_header s)) s i

  send_volume-Inv : (v : Double) (s : Sender) → Inv s → Inv (send_volume b v s)
  unfolding send_volume
  send_volume-Inv v s i =
      send_request-Inv (codes "SET_PARAMETER") (rtsp_uri s) (codes "text/parameters")
        (codes "volume: " ++ fixed6 v) (session_header s) s i

  pub set_volume-Inv : (pct : Double) (s : Sender) → Inv s → Inv (set_volume b pct s)
  unfolding set_volume
  set_volume-Inv pct s i =
      let t = record s { stream = record (s.stream) { pending_volume = some (dbfs pct) } } in
      if-both Inv (is_streaming s.state) _ _ (send_volume-Inv (dbfs pct) t (same-Inv i.facts))
        (same-Inv {t = t} i.facts)

  send_text-Inv : (s : Sender) (hdr : Headers) → Inv s → Inv (send_text b s hdr)
  unfolding send_text
  send_text-Inv s hdr i = if-both Inv (is_empty (metadata_text s.playing)) _ _ i (
      send_request-Inv (codes "SET_PARAMETER") (rtsp_uri s) (codes "application/x-dmap-tagged")
        (dmap_tag (codes "mlit") (metadata_text s.playing)) hdr s i)

  send_cover-Inv : (hdr : Headers) (s : Sender) → Inv s → Inv (send_cover b hdr s)
  unfolding send_cover
  send_cover-Inv hdr s i =
      let np = s.playing in
      let mime = if is_empty np.cover_mime then codes "image/jpeg" else np.cover_mime in
      if-both Inv (is_empty np.cover) _ _ i (
        if-both Inv (leb (length np.cover) (8 * 1024 * 1024)) _ _
          (send_request-Inv (codes "SET_PARAMETER") (rtsp_uri s) mime np.cover hdr s i) i)

  send_metadata-Inv : (s : Sender) → Inv s → Inv (send_metadata b s)
  unfolding send_metadata
  send_metadata-Inv s i =
      let np = s.playing in
      let hdr = metadata_header b s in
      if-both Inv (not (is_streaming s.state)) _ _ i (
        if-both Inv
          (is_empty np.title && (is_empty np.artist && (is_empty np.album && is_empty np.cover))) _
          _ i (send_cover-Inv hdr (send_text b s hdr) (send_text-Inv s hdr i)))

  pub set_now_playing-Inv : (np : NowPlaying) (s : Sender) → Inv s → Inv (set_now_playing b np s)
  unfolding set_now_playing
  set_now_playing-Inv np s i =
      let t = record s { playing = np } in
      let j : Inv t = same-Inv i.facts in
      if-both Inv (is_streaming s.state && not (same_playing np s.playing)) _ _
        (send_metadata-Inv t j) j

  push_volume-Inv : (v : Option Double) (s : Sender) → Inv s → Inv (push_volume b v s)
  unfolding push_volume
  push_volume-Inv none s i = i
  push_volume-Inv (some v) s i = send_volume-Inv v s i

  apply_volume-Inv : (s : Sender) → Inv s → Inv (apply_volume b s)
  unfolding apply_volume
  apply_volume-Inv s i =
      push_volume-Inv (initial_volume s.config.airplay2 s.stream.pending_volume) _
        (same-Inv i.facts)

  start_feedback-Inv : (s : Sender) → Inv s → Inv (start_feedback b s)
  unfolding start_feedback
  start_feedback-Inv s i =
      if-both Inv s.config.airplay2 _ _
        (same-Inv {t = arm_feedback (feedback_every (ms 2000) s)} i.facts)
        (send_request-Inv (codes "POST") (codes "/feedback") [] [] [] (feedback_every (ms 25000) s)
          (same-Inv i.facts))

  none_sent : 0 < 2 ^ 64
  none_sent = omega arith

  anchor-Inv : (s : Sender) → Inv s → Inv (anchor s)
  unfolding anchor
  anchor-Inv s i =
      let (paired, kept, tags, frames, staged, quiet) = i.facts in
      same-Inv (paired, kept, tags, none_sent, staged, refl)

  pub start_streaming-Inv : (s : Sender) → Inv s → Inv (start_streaming b s)
  unfolding start_streaming
  start_streaming-Inv s i =
      let t = send_sync_packet true (anchor s) in
      let j = send_sync_packet-Inv true (anchor s) (anchor-Inv s i) in
      let u = apply_volume b (arm_sync t) in
      let k = apply_volume-Inv (arm_sync t) (same-Inv j.facts) in
      let v = start_feedback b (arm_pacer u) in
      let l = start_feedback-Inv (arm_pacer u) (same-Inv k.facts) in
      same-Inv (send_metadata-Inv v l).facts
