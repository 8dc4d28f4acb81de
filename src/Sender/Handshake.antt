-- ===== src/Sender/Handshake.antt =====
-- The AirPlay 1 handshake of src/raop_sender.cpp (`sendOptions_` to `startStreaming_`), the volume
-- and the metadata. `npTitle_` and its siblings are byte strings.
pub mod Invariant
use airplay2_sender_cpp.Base.{
  ℕ, ◌*◌, Bool, true, not, ◌&&◌, [], ◌∷◌, ◌++◌, Option, none, some, Bytes, codes, bytes_eq, length,
  leb, if◌then◌else◌,
}
use airplay2_sender_cpp.Crypto.Backend.{Backend}
use airplay2_sender_cpp.Text.{Headers, dmap_tag}
use airplay2_sender_cpp.Text.Numbers.{to_string}
use airplay2_sender_cpp.Sender.Stage.{State, is_streaming}
use airplay2_sender_cpp.Sender.Action.{launched}
use airplay2_sender_cpp.Sender.State.{Sender, NowPlaying, arm, disarm, emit, ms}
use airplay2_sender_cpp.Doubles
use airplay2_sender_cpp.Doubles.{Double}
use airplay2_sender_cpp.Sender.Volume.{dbfs, fixed6}
use airplay2_sender_cpp.Sender.Clock.{ntp2ts, ntp_now, raop_rate, rtptime32}
use airplay2_sender_cpp.Sender.Request.{is_empty, crlf, rtsp_uri, send_request}
use airplay2_sender_cpp.Sender.Lifecycle.{session_header}
use airplay2_sender_cpp.Sender.Rtp.{send_sync_packet}

-- One line of the session description.
abbrev sdp_line : Bytes → Bytes
sdp_line text = text ++ crlf

unfoldable pub announce_sdp : Sender → Bytes
announce_sdp s =
    sdp_line (codes "v=0")
    ++ (sdp_line (
          codes "o=iTunes "
          ++ (to_string s.session.session_id ++ (codes " 0 IN IP4 " ++ s.link.local_ip)))
        ++ (sdp_line (codes "s=iTunes")
            ++ (sdp_line (codes "c=IN IP4 " ++ s.link.host_ip)
                ++ (sdp_line (codes "t=0 0")
                    ++ (sdp_line (codes "m=audio 0 RTP/AVP 96")
                        ++ (sdp_line (codes "a=rtpmap:96 L16/44100/2")
                            ++ sdp_line (codes "a=fmtp:96 352 0 16 40 10 14 2 255 0 0 44100")))))))

-- "seq=<rtpseq>;rtptime=<rtptime>"
unfoldable pub rtp_info : Sender → Bytes
rtp_info s =
    codes "seq="
    ++ (to_string s.stream.seq ++ (codes ";rtptime=" ++ to_string (rtptime32 s.stream.frames_sent)))

tagged : Bytes → Bytes → Bytes
tagged code text = if is_empty text then [] else dmap_tag code text

-- mlit{ minm(title) asal(album) asar(artist) }, without what is empty.
unfoldable pub metadata_text : NowPlaying → Bytes
unfolding tagged
metadata_text np =
    tagged (codes "minm") np.title
    ++ (tagged (codes "asal") np.album ++ tagged (codes "asar") np.artist)

-- The clock of the stream starts anew.
unfoldable pub anchor : Sender → Sender
anchor s = record s {
  state = State.streaming;
  timers = record (s.timers) { timeout = disarm s.timers.timeout };
  stream = record (s.stream) {
    start_ts = ntp2ts (ntp_now s.wall) raop_rate;
    frames_sent = 0;
    first_audio = true;
    clock_start = s.now;
  };
}

abbrev pub arm_sync : Sender → Sender
arm_sync s = record s { timers = record (s.timers) { sync_timer = arm s.now s.timers.sync_timer } }

abbrev pub arm_pacer : Sender → Sender
arm_pacer s = record s { timers = record (s.timers) { pacer = arm s.now s.timers.pacer } }

-- No volume becomes 0 dB on AirPlay 2.
unfoldable pub initial_volume : Bool → Option Double → Option Double
initial_volume ap2 none = if ap2 then some (Doubles.of_nat 0) else none
initial_volume ap2 (some v) = some v

abbrev pub feedback_every : ℕ → Sender → Sender
feedback_every interval s = record s {
  timers = record (s.timers) {
    feedback_timer = record (s.timers.feedback_timer) { interval = interval };
  };
}

abbrev pub arm_feedback : Sender → Sender
arm_feedback s = record s {
  timers = record (s.timers) { feedback_timer = arm s.now s.timers.feedback_timer };
}

-- Whether a metadata update changes nothing.
unfoldable pub same_playing : NowPlaying → NowPlaying → Bool
unfolding bytes_eq
same_playing np old =
    bytes_eq np.title old.title
    && (bytes_eq np.artist old.artist
        && (bytes_eq np.album old.album
            && (bytes_eq np.cover old.cover && bytes_eq np.cover_mime old.cover_mime)))

module _ (b : Backend) where
  -- `sendOptions_`
  unfoldable pub send_options : Sender → Sender
  unfolding send_request
  send_options s = send_request b (codes "OPTIONS") (codes "*") [] [] [] s

  -- `sendAnnounce_`
  unfoldable pub send_announce : Sender → Sender
  unfolding send_request
  send_announce s =
      send_request b (codes "ANNOUNCE") (rtsp_uri s) (codes "application/sdp") (announce_sdp s) [] s

  -- The `Transport` header of SETUP.
  abbrev setup_header : Sender → Headers
  setup_header s =
      (
        codes "Transport",
        codes "RTP/AVP/UDP;unicast;interleaved=0-1;mode=record;control_port="
            ++ (to_string s.link.local_control_port
                ++ (codes ";timing_port=" ++ to_string s.link.local_timing_port)),
      )
      ∷ []

  -- `sendSetup_`
  unfoldable pub send_setup : Sender → Sender
  unfolding send_request
  send_setup s = send_request b (codes "SETUP") (rtsp_uri s) [] [] (setup_header s) s

  -- `sendRecord_`
  unfoldable pub send_record : Sender → Sender
  unfolding send_request
  send_record s =
      send_request b (codes "RECORD") (rtsp_uri s) [] []
        ((codes "Range", codes "npt=0-") ∷ ((codes "RTP-Info", rtp_info s) ∷ session_header s)) s

  -- The `SET_PARAMETER` of a volume.
  unfoldable pub send_volume : Double → Sender → Sender
  unfolding send_request
  send_volume v s =
      send_request b (codes "SET_PARAMETER") (rtsp_uri s) (codes "text/parameters")
        (codes "volume: " ++ fixed6 v) (session_header s) s

  -- `setVolume`
  unfoldable pub set_volume : Double → Sender → Sender
  unfolding send_volume
  set_volume pct s =
      let t = record s { stream = record (s.stream) { pending_volume = some (dbfs pct) } } in
      if is_streaming s.state then send_volume (dbfs pct) t else t

  metadata_header : Sender → Headers
  metadata_header s = session_header s ++ ((codes "RTP-Info", rtp_info s) ∷ [])

  send_text : Sender → Headers → Sender
  unfolding send_request metadata_text
  send_text s hdr =
      if is_empty (metadata_text s.playing)
      then s
      else send_request b (codes "SET_PARAMETER") (rtsp_uri s) (codes "application/x-dmap-tagged")
          (dmap_tag (codes "mlit") (metadata_text s.playing)) hdr s

  send_cover : Headers → Sender → Sender
  unfolding send_request
  send_cover hdr s =
      let np = s.playing in
      let mime = if is_empty np.cover_mime then codes "image/jpeg" else np.cover_mime in
      if is_empty np.cover
      then s
      else if leb (length np.cover) (8 * 1024 * 1024)
      then send_request b (codes "SET_PARAMETER") (rtsp_uri s) mime np.cover hdr s
      else s

  -- `sendMetadata_`
  unfoldable pub send_metadata : Sender → Sender
  unfolding metadata_header send_text send_cover
  send_metadata s =
      let np = s.playing in
      let hdr = metadata_header s in
      if not (is_streaming s.state)
      then s
      else if is_empty np.title && (is_empty np.artist && (is_empty np.album && is_empty np.cover))
      then s
      else send_cover hdr (send_text s hdr)

  -- `setNowPlaying`
  unfoldable pub set_now_playing : NowPlaying → Sender → Sender
  unfolding send_metadata same_playing
  set_now_playing np s =
      let t = record s { playing = np } in
      if is_streaming s.state && not (same_playing np s.playing) then send_metadata t else t

  unfoldable pub push_volume : Option Double → Sender → Sender
  unfolding send_volume
  push_volume none s = s
  push_volume (some v) s = send_volume v s

  -- The volume that is pending goes out.
  unfoldable pub apply_volume : Sender → Sender
  unfolding initial_volume push_volume
  apply_volume s =
      let v = initial_volume s.config.airplay2 s.stream.pending_volume in
      push_volume v (record s { stream = record (s.stream) { pending_volume = v } })

  unfoldable pub start_feedback : Sender → Sender
  unfolding send_request
  start_feedback s =
      if s.config.airplay2
      then arm_feedback (feedback_every (ms 2000) s)
      else send_request b (codes "POST") (codes "/feedback") [] [] [] (feedback_every (ms 25000) s)

  -- `startStreaming_`
  unfoldable pub start_streaming : Sender → Sender
  unfolding anchor send_sync_packet apply_volume start_feedback send_metadata
  start_streaming s = emit (launched true []) (
      send_metadata
        (start_feedback (arm_pacer (apply_volume (arm_sync (send_sync_packet true (anchor s)))))))
