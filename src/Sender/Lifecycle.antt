-- ===== src/Sender/Lifecycle.antt =====
-- `start`, `stop`, `releaseSockets_`, `fail_` and the socket notifications without protocol of
-- src/raop_sender.cpp. `localTimingPort_` and the other bound ports are what the host returned.
pub mod Closing
pub mod Stopping
pub mod Invariant
use airplay2_sender_cpp.Base.{
  ℕ, zero, suc, ◌+◌, ◌*◌, Bool, true, false, not, ◌&&◌, ◌||◌, List, [], ◌∷◌, ◌++◌, Option, none,
  some, Bytes, codes, get_or, length, replicate, ◌==◌, if◌then◌else◌, bit_and, bit_or, set, take,
  drop,
}
use airplay2_sender_cpp.Doubles
use airplay2_sender_cpp.Crypto.Backend.{Backend}
use airplay2_sender_cpp.Creds.Hex.{hex_encode}
use airplay2_sender_cpp.Text.{Headers}
use airplay2_sender_cpp.Text.Numbers.{hex_upper}
use airplay2_sender_cpp.Sender.Stage.{State, PairStage, is_idle, is_streaming}
use airplay2_sender_cpp.Sender.Action.{
  tcp_connect, launched, closed, udp_bind, udp_close, tcp_close, RaopTcp, RaopUdp, Action,
}
use airplay2_sender_cpp.Sender.State.{
  Sender, Link, Session, Stream, Config, Channel, EventChannel, Ports, Digest, stop_timers, emit,
  arm_timeout,
}
use airplay2_sender_cpp.Sender.Request.{is_empty, rtsp_uri, send_request}

le_value : Bytes → ℕ
le_value [] = 0
le_value (x ∷ xs) = x + 256 * le_value xs

abbrev pub backlog_size : ℕ
backlog_size = 1024

udp_released : Sender → Sender
udp_released s =
    if s.link.udp_bound
    then emit (udp_close RaopUdp.timing)
        (emit (udp_close RaopUdp.control) (emit (udp_close RaopUdp.audio) s))
    else s

-- `releaseSockets_`
unfoldable pub release_sockets : Sender → Sender
unfolding udp_released
release_sockets s =
    let t = udp_released s in
    emit (tcp_close RaopTcp.event false) (record t {
      link = record (t.link) { udp_bound = false; local_control_port = 0; local_timing_port = 0 };
    })

-- The backlog without its payloads.
abbrev pub clear_backlog : Sender → Sender
clear_backlog s = record s {
  stream = record (s.stream) {
    backlog = replicate backlog_size [];
    backlog_seq = replicate backlog_size none;
  };
}

abbrev pub disconnected : Sender → Sender
disconnected s = record s { link = record (s.link) { rtsp_connected = false } }

abbrev pub to_idle : Sender → Sender
to_idle s = record s { state = State.idle }

abbrev pub timers_off : Sender → Sender
timers_off s = record s { timers = stop_timers s.timers }

-- `if (wasStarting && events_.launched) ...; if (events_.closed) ...`
unfoldable pub report : Bool → Bytes → Sender → Sender
report was_streaming why s = emit closed (if was_streaming then s else emit (launched false why) s)

-- `fail_`
unfoldable pub fail : Bytes → Sender → Sender
unfolding release_sockets report
fail why s = report (is_streaming s.state) why (
    release_sockets
      (disconnected (emit (tcp_close RaopTcp.control false) (timers_off (to_idle s)))))

-- The session header, which only AirPlay 1 has.
abbrev pub session_header : Sender → Headers
session_header s =
    if is_empty s.session.rtsp_session then [] else (codes "Session", s.session.rtsp_session) ∷ []

-- `onTcpClosed`
unfoldable pub control_closed : Bytes → Sender → Sender
unfolding fail release_sockets report
control_closed reason s =
    let t = disconnected s in
    if is_idle s.state
    then t
    else if not (is_empty reason)
    then fail reason t
    else report (is_streaming s.state) (codes "Connection closed by the device")
        (clear_backlog (release_sockets (timers_off (to_idle t))))

unfoldable pub on_tcp_closed : RaopTcp → Bytes → Sender → Sender
unfolding control_closed
on_tcp_closed RaopTcp.event reason s = s
on_tcp_closed RaopTcp.control reason s = control_closed reason s

-- `onTcpConnectFailed`
unfoldable pub on_tcp_connect_failed : RaopTcp → Bytes → Sender → Sender
unfolding fail
on_tcp_connect_failed RaopTcp.event reason s = s
on_tcp_connect_failed RaopTcp.control reason s =
    if is_idle s.state
    then s
    else fail (if is_empty reason then codes "Connection failed" else reason) s

part : Bytes → ℕ → ℕ → Bytes
part u from n = hex_encode (take n (drop from u))

-- Whether there is a session that the receiver has to be told about.
abbrev pub has_session : Sender → Bool
has_session s =
    s.link.rtsp_connected && (not (is_empty s.session.rtsp_session) || s.config.airplay2)

module _ (b : Backend) where
  -- TEARDOWN, which is sent while `state_` is still what it was.
  unfoldable pub teardown : Sender → Sender
  unfolding send_request
  teardown s =
      if has_session s
      then send_request b (codes "TEARDOWN") (rtsp_uri s) [] [] (session_header s) s
      else s

  -- `stop` after the TEARDOWN. An exception that escaped from it has left `stop` before the rest.
  unfoldable pub stopped : Bool → Sender → Sender
  unfolding release_sockets
  stopped escaped t =
      if escaped
      then t
      else clear_backlog
          (release_sockets (disconnected (emit (tcp_close RaopTcp.control true) (to_idle t))))

  -- `stop`
  unfoldable pub stop : Sender → Sender
  unfolding teardown stopped
  stop s =
      let told = teardown (timers_off s) in
      if is_idle s.state then s else stopped (told.fault && not s.fault) told

  -- A random number of `n` bytes, the least significant one first: `rand16`, `rand32`, `rand64`.
  rand : ℕ → ℕ → ℕ
  unfolding le_value
  rand draw n = le_value (b.random draw n)

  -- `uuidV4Lower`
  unfoldable pub uuid_v4_lower : ℕ → Bytes
  unfolding part
  uuid_v4_lower draw =
      let raw = b.random draw 16 in
      let ver = set raw 6 (bit_or (bit_and (get_or raw 6 0) 0x0F) 0x40) in
      let u = set ver 8 (bit_or (bit_and (get_or ver 8 0) 0x3F) 0x80) in
      part u 0 4
      ++ (codes "-"
          ++ (part u 4 2
              ++ (codes "-"
                  ++ (part u 6 2 ++ (codes "-" ++ (part u 8 2 ++ (codes "-" ++ part u 10 6)))))))

  -- The fields that `start` sets anew.
  unfoldable pub fresh : Bytes → Bytes → Sender → Sender
  unfolding rand
  fresh host name s = record s {
    config = record (s.config) { host = host; name = name };
    link = record (s.link) { local_ip = []; host_ip = [] };
    chan = record {
      rx_buf = [];
      control_encrypted = false;
      ctrl_send_ctr = 0;
      ctrl_recv_ctr = 0;
      rtsp_enc_buf = [];
    };
    events = record {
      event_send_ctr = 0;
      event_recv_ctr = 0;
      event_enc_buf = [];
      event_plain_buf = [];
    };
    session = record {
      session_id = rand s.draws 4;
      dacp_id = hex_upper (rand (s.draws + 1) 8);
      active_remote = rand (s.draws + 2) 4;
      rtsp_session = [];
      cseq = 0;
    };
    pending_methods = [];
    pending_is_http = [];
    ports = record { server_port = 0; control_port = 0; timing_port = 0 };
    stream = record (s.stream) {
      frames_sent = 0;
      seq = rand (s.draws + 3) 2;
      first_audio = true;
      pending_volume = none;
      backlog_seq = replicate backlog_size none;
      input = record (s.stream.input) { in_buf = []; src_phase = Doubles.of_nat 0 };
    };
    pair_stage = PairStage.none;
    waiting_for_pin = false;
    tried_transient = false;
    ap2 = none;
    digest = record { realm = []; nonce = []; retried = false };
    draws = s.draws + 4;
  }

  -- `start` after its `stop`, where `timing`, `control` and `audio` are the ports that the host has
  -- bound.
  unfoldable pub started : Bytes → ℕ → Bytes → ℕ → ℕ → ℕ → Sender → Sender
  unfolding fresh release_sockets
  started host port name timing control audio s =
      let t = fresh host name s in
      let u =
        emit (udp_bind RaopUdp.audio)
          (emit (udp_bind RaopUdp.control) (emit (udp_bind RaopUdp.timing) t)) in
      let v = record u {
        link = record (u.link) {
          local_timing_port = timing;
          local_control_port = control;
          udp_bound = true;
        };
      } in
      if (timing == 0) || ((control == 0) || (audio == 0))
      then emit (launched false (codes "Could not bind UDP sockets")) (release_sockets v)
      else emit (tcp_connect RaopTcp.control host port)
          (arm_timeout (disconnected (record v { state = State.connecting })))

  -- `start`. An exception that escaped from `stop` has left it too.
  unfoldable pub start : Bytes → ℕ → Bytes → ℕ → ℕ → ℕ → Sender → Sender
  unfolding stop started
  start host port name timing control audio s =
      let t = stop s in
      if t.fault && not s.fault then t else started host port name timing control audio t
