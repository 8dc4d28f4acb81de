-- ===== src/Sender/Calls.antt =====
-- The calls that an application and a host make (src/raop_sender.h), as one step function. A call
-- brings the two clocks that it reads. After an escaped exception or a null pointer nothing more is
-- said of the sender.
pub mod Invariant
use airplay2_sender_cpp.Base.{
  ℕ, Bool, ◌==◌, true, false, [], Option, none, Bytes, codes, replicate, if◌then◌else◌,
}
use airplay2_sender_cpp.Ring.{Ring}
use airplay2_sender_cpp.Doubles
use airplay2_sender_cpp.Doubles.{Double}
use airplay2_sender_cpp.Crypto.Backend.{Backend}
use airplay2_sender_cpp.Text.{strip_cr_lf}
use airplay2_sender_cpp.Sender.Auth.{Auth}
use airplay2_sender_cpp.Sender.Stage.{State, PairStage, is_idle}
use airplay2_sender_cpp.Sender.Action.{RaopTcp, RaopUdp, RaopEndpoint}
use airplay2_sender_cpp.Sender.State.{Sender, Identity, NowPlaying, initial_timers}
use airplay2_sender_cpp.Sender.Request.{is_empty}
use airplay2_sender_cpp.Sender.Lifecycle.{
  start, stop, on_tcp_closed, on_tcp_connect_failed, backlog_size,
}
use airplay2_sender_cpp.Sender.Rtp.{on_udp_datagram}
use airplay2_sender_cpp.Sender.Handshake.{set_volume, set_now_playing}
use airplay2_sender_cpp.Sender.Pairing.Setup.{submit_pin}
use airplay2_sender_cpp.Sender.Pairing.Replies.{on_tcp_connected}
use airplay2_sender_cpp.Sender.Receive.{on_rtsp_ready_read}
use airplay2_sender_cpp.Sender.Events.{on_event_ready_read}
use airplay2_sender_cpp.Sender.Timers.{tick}

-- `RaopIdentity`, the defaults.
abbrev pub default_identity : Identity
default_identity = record {
  name = codes "airplay2-sender-cpp";
  device_id = codes "AA:BB:CC:DD:EE:FF";
  model = codes "iPhone14,3";
}

-- A sender as its constructor leaves it.
abbrev pub new_sender : Sender
new_sender = record {
  config = record {
    identity = default_identity;
    strict_auth = false;
    airplay2 = false;
    device_id = [];
    creds_json = [];
    digest_password = [];
    host = [];
    name = [];
  };
  link = record {
    rtsp_connected = false;
    udp_bound = false;
    local_ip = [];
    host_ip = [];
    local_control_port = 0;
    local_timing_port = 0;
  };
  chan = record {
    rx_buf = [];
    control_encrypted = false;
    ctrl_send_ctr = 0;
    ctrl_recv_ctr = 0;
    rtsp_enc_buf = [];
  };
  events = record {
    event_send_ctr = 0;
    event_recv_ctr = 0;
    event_enc_buf = [];
    event_plain_buf = [];
  };
  session = record { session_id = 0; dacp_id = []; active_remote = 0; rtsp_session = []; cseq = 0 };
  pending_methods = [];
  pending_is_http = [];
  state = State.idle;
  ports = record { server_port = 0; control_port = 0; timing_port = 0 };
  timers = initial_timers;
  stream = record {
    clock_start = 0;
    start_ts = 0;
    frames_sent = 0;
    seq = 0;
    first_audio = true;
    pending_volume = none;
    backlog = replicate backlog_size [];
    backlog_seq = replicate backlog_size none;
    ring = none;
    input = record { input_rate = 44100; in_buf = []; src_phase = Doubles.of_nat 0 };
  };
  playing = record { title = []; artist = []; album = []; cover = []; cover_mime = [] };
  pair_stage = PairStage.none;
  auth_method = Auth.none;
  waiting_for_pin = false;
  tried_transient = false;
  srp_salt = [];
  srp_server_b = [];
  pair_setup_session_key = [];
  ap2 = none;
  digest = record { realm = []; nonce = []; retried = false };
  out = [];
  draws = 0;
  now = 0;
  wall = 0;
  fault = false;
}

or_default : Bytes → Bytes → Bytes
or_default text def = if is_empty text then def else text

-- `setIdentity`
unfoldable pub set_identity : Identity → Sender → Sender
unfolding or_default strip_cr_lf
set_identity id s = record s {
  config = record (s.config) {
    identity = record {
      name = or_default (strip_cr_lf id.name) default_identity.name;
      device_id = or_default (strip_cr_lf id.device_id) default_identity.device_id;
      model = or_default (strip_cr_lf id.model) default_identity.model;
    };
  };
}

-- `setAuth`
unfoldable pub set_auth : Auth → Bool → Bytes → Bytes → Bytes → Sender → Sender
set_auth auth airplay2 device_id creds_json password s = record s {
  auth_method = auth;
  config = record (s.config) {
    airplay2 = airplay2;
    device_id = device_id;
    creds_json = creds_json;
    digest_password = password;
  };
}

-- `setInputFormat`, whose rate is a `uint32_t`
unfoldable pub set_input_format : ℕ → Sender → Sender
set_input_format rate s = record s {
  stream = record (s.stream) {
    input = record (s.stream.input) { input_rate = if rate == 0 then 48000 else rate };
  };
}

-- `attachRing`
unfoldable pub attach_ring : Option (Ring ℕ) → Sender → Sender
attach_ring ring s = record s { stream = record (s.stream) { ring = ring } }

-- `setStrictReceiverAuth`
unfoldable pub set_strict_auth : Bool → Sender → Sender
set_strict_auth strict s = record s { config = record (s.config) { strict_auth = strict } }

pub data Call : Type 0 where
  identity_call : Identity → Call
  auth_call : Auth → Bool → Bytes → Bytes → Bytes → Call
  ring_call : Option (Ring ℕ) → Call
  strict_call : Bool → Call
  format_call : ℕ → Call
  -- host, port, name, and the three ports that the host binds: timing, control, audio
  start_call : Bytes → ℕ → Bytes → ℕ → ℕ → ℕ → Call
  stop_call tick_call : Call
  pin_call : Bytes → Call
  volume_call : Double → Call
  playing_call : NowPlaying → Call
  connected_call : RaopTcp → Bytes → Bytes → Call
  connect_failed_call data_call closed_call : RaopTcp → Bytes → Call
  datagram_call : RaopUdp → Bytes → RaopEndpoint → Call

module _ (b : Backend) where
  -- `onTcpData`
  unfoldable pub on_tcp_data : RaopTcp → Bytes → Sender → Sender
  unfolding on_rtsp_ready_read on_event_ready_read
  on_tcp_data RaopTcp.control bytes s = on_rtsp_ready_read b bytes s
  on_tcp_data RaopTcp.event bytes s = on_event_ready_read b bytes s

  unfoldable pub perform : Call → Sender → Sender
  unfolding on_tcp_data tick start stop submit_pin set_volume set_now_playing on_tcp_connected
      on_tcp_connect_failed on_tcp_closed on_udp_datagram
  perform (identity_call id) s = set_identity id s
  perform (auth_call auth airplay2 device_id creds_json password) s =
      set_auth auth airplay2 device_id creds_json password s
  perform (ring_call ring) s = attach_ring ring s
  perform (strict_call strict) s = set_strict_auth strict s
  perform (format_call rate) s = set_input_format rate s
  perform (start_call host port name timing control audio) s =
      start b host port name timing control audio s
  perform stop_call s = stop b s
  perform tick_call s = tick b s
  perform (pin_call code) s = submit_pin b code s
  perform (volume_call pct) s = set_volume b pct s
  perform (playing_call np) s = set_now_playing b np s
  perform (connected_call ch local peer) s = on_tcp_connected b ch local peer s
  perform (connect_failed_call ch reason) s = on_tcp_connect_failed ch reason s
  perform (data_call ch bytes) s = on_tcp_data ch bytes s
  perform (closed_call ch reason) s = on_tcp_closed ch reason s
  perform (datagram_call u dg from) s = on_udp_datagram u dg from s

  -- A call at the times `now` and `wall` of the two clocks.
  unfoldable pub step : ℕ → ℕ → Call → Sender → Sender
  unfolding perform
  step now wall call s = if s.fault then s else perform call (record s { now = now; wall = wall })

  -- `~RaopSender`
  unfoldable pub destroy : Sender → Sender
  unfolding stop
  destroy s = if is_idle s.state then s else stop b s
