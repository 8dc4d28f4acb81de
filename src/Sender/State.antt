-- ===== src/Sender/State.antt =====
-- The state of `RaopSender` (src/raop_sender.h), its fields grouped as the header groups them, and
-- `RaopAp2State` of src/raop_sender.cpp. Times are in nanoseconds.
use airplay2_sender_cpp.Base.{ℕ, ◌+◌, ◌*◌, Bool, true, false, List, [], ◌∷◌, Option, none, Bytes}
use airplay2_sender_cpp.Ring.{Ring}
use airplay2_sender_cpp.Doubles.{Double}
use airplay2_sender_cpp.Crypto.Srp.{SrpClient}
use airplay2_sender_cpp.Sender.Auth.{Auth}
use airplay2_sender_cpp.Sender.Stage.{State, PairStage}
use airplay2_sender_cpp.Sender.Action.{Action}

-- `Timer_`
pub record Timer : Type 0 where
  pub interval : ℕ
  pub repeating : Bool
  pub active : Bool
  pub due : ℕ

pub record Timers : Type 0 where
  pub pacer : Timer
  pub sync_timer : Timer
  pub timeout : Timer
  pub pin_timeout : Timer
  pub feedback_timer : Timer

-- `RaopIdentity`
pub record Identity : Type 0 where
  pub name : Bytes
  pub device_id : Bytes
  pub model : Bytes

-- What the host has set before `start` and what `start` was called with.
pub record Config : Type 0 where
  pub identity : Identity
  pub strict_auth : Bool
  pub airplay2 : Bool
  pub device_id : Bytes
  pub creds_json : Bytes
  pub digest_password : Bytes
  pub host : Bytes
  pub name : Bytes

pub record Link : Type 0 where
  pub rtsp_connected : Bool
  pub udp_bound : Bool
  pub local_ip : Bytes
  pub host_ip : Bytes
  pub local_control_port : ℕ
  pub local_timing_port : ℕ

-- The control connection, plain or encrypted.
pub record Channel : Type 0 where
  pub rx_buf : Bytes
  pub control_encrypted : Bool
  pub ctrl_send_ctr : ℕ
  pub ctrl_recv_ctr : ℕ
  pub rtsp_enc_buf : Bytes

pub record EventChannel : Type 0 where
  pub event_send_ctr : ℕ
  pub event_recv_ctr : ℕ
  pub event_enc_buf : Bytes
  pub event_plain_buf : Bytes

pub record Session : Type 0 where
  pub session_id : ℕ
  pub dacp_id : Bytes
  pub active_remote : ℕ
  pub rtsp_session : Bytes
  pub cseq : ℕ

-- The receiver's ports.
pub record Ports : Type 0 where
  pub server_port : ℕ
  pub control_port : ℕ
  pub timing_port : ℕ

-- The audio on its way from the ring to a packet, at rates other than 44100.
pub record Input : Type 0 where
  pub input_rate : ℕ
  pub in_buf : List ℕ
  pub src_phase : Double

pub record Stream : Type 0 where
  pub clock_start : ℕ
  pub start_ts : ℕ
  pub frames_sent : ℕ
  pub seq : ℕ
  pub first_audio : Bool
  -- `none` is `kNoVolume`
  pub pending_volume : Option Double
  pub backlog : List Bytes
  -- `none` is -1
  pub backlog_seq : List (Option ℕ)
  pub ring : Option (Ring ℕ)
  pub input : Input

pub record NowPlaying : Type 0 where
  pub title : Bytes
  pub artist : Bytes
  pub album : Bytes
  pub cover : Bytes
  pub cover_mime : Bytes

pub record Digest : Type 0 where
  pub realm : Bytes
  pub nonce : Bytes
  pub retried : Bool

-- `RaopAp2State`
pub record Ap2 : Type 0 where
  pub srp : Option SrpClient
  pub lt_seed : Bytes
  pub lt_pub : Bytes
  pub pairing_id : Bytes
  pub accessory_id : Bytes
  pub accessory_ltpk : Bytes
  pub verify_pub : Bytes
  pub verify_priv : Bytes
  pub shared_secret : Bytes
  pub control_out : Bytes
  pub control_in : Bytes
  pub event_out : Bytes
  pub event_in : Bytes
  pub audio_key : Bytes
  pub audio_nonce : ℕ
  pub encrypt_audio : Bool
  pub session_uuid : Bytes
  pub event_port : ℕ

pub record Sender : Type 0 where
  pub config : Config
  pub link : Link
  pub chan : Channel
  pub events : EventChannel
  pub session : Session
  -- the two queues that route replies, oldest first
  pub pending_methods : List Bytes
  pub pending_is_http : List Bool
  pub state : State
  pub ports : Ports
  pub timers : Timers
  pub stream : Stream
  pub playing : NowPlaying
  pub pair_stage : PairStage
  pub auth_method : Auth
  pub waiting_for_pin : Bool
  pub tried_transient : Bool
  pub srp_salt : Bytes
  pub srp_server_b : Bytes
  pub pair_setup_session_key : Bytes
  pub ap2 : Option Ap2
  pub digest : Digest
  -- what the calls have done so far, the latest first
  pub out : List Action
  -- the random draws so far
  pub draws : ℕ
  -- the monotonic clock, in nanoseconds, and the wall clock, in microseconds, of the current call
  pub now : ℕ
  pub wall : ℕ
  -- a null pointer was dereferenced or an exception left the sender
  pub fault : Bool

-- `arm_` and `disarm_`
abbrev pub arm : ℕ → Timer → Timer
arm now t = record t { due = now + t.interval; active = true }

abbrev pub disarm : Timer → Timer
disarm t = record t { active = false }

abbrev pub stop_timers : Timers → Timers
stop_timers t = record {
  pacer = disarm t.pacer;
  sync_timer = disarm t.sync_timer;
  timeout = disarm t.timeout;
  pin_timeout = disarm t.pin_timeout;
  feedback_timer = disarm t.feedback_timer;
}

-- A call to the outside.
abbrev pub emit : Action → Sender → Sender
emit a s = record s { out = a ∷ s.out }

abbrev pub arm_timeout : Sender → Sender
arm_timeout s = record s { timers = record (s.timers) { timeout = arm s.now s.timers.timeout } }

abbrev pub crash : Sender → Sender
crash s = record s { fault = true }

abbrev pub new_ap2 : Ap2
new_ap2 = record {
  srp = none;
  lt_seed = [];
  lt_pub = [];
  pairing_id = [];
  accessory_id = [];
  accessory_ltpk = [];
  verify_pub = [];
  verify_priv = [];
  shared_secret = [];
  control_out = [];
  control_in = [];
  event_out = [];
  event_in = [];
  audio_key = [];
  audio_nonce = 0;
  encrypt_audio = false;
  session_uuid = [];
  event_port = 0;
}

abbrev pub ms : ℕ → ℕ
ms n = n * 1000000

-- The timers as the constructor sets them.
abbrev pub initial_timers : Timers
initial_timers = record {
  pacer = record { interval = ms 8; repeating = true; active = false; due = 0 };
  sync_timer = record { interval = ms 1000; repeating = true; active = false; due = 0 };
  timeout = record { interval = ms 10000; repeating = false; active = false; due = 0 };
  pin_timeout = record { interval = ms 180000; repeating = false; active = false; due = 0 };
  feedback_timer = record { interval = ms 25000; repeating = true; active = false; due = 0 };
}
