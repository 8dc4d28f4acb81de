-- ===== src/Sender/Lifecycle/Invariant.antt =====
-- `start`, `stop`, `fail_` and closed connections of src/raop_sender.cpp keep the invariant.
use airplay2_sender_cpp.Sender.Resample.Sizes.{Staged}
use airplay2_sender_cpp.Base.{
  not, ◌^◌, ◌<◌, length, ℕ, ◌≡◌, refl, sym, subst, Bool, true, false, ◌&&◌, ◌||◌, [], ◌∷◌, ◌==◌,
  Bytes, codes, if-both, arith, length-replicate, none, Option, length,
}
use airplay2_sender_cpp.Crypto.Backend.{Backend}
use airplay2_sender_cpp.Sender.Stage.{is_idle, is_streaming}
use airplay2_sender_cpp.Sender.Action.{RaopTcp, RaopUdp, tcp_close, udp_bind}
use airplay2_sender_cpp.Sender.State.{Sender, emit}
use airplay2_sender_cpp.Sender.Request.{rtsp_uri}
use airplay2_sender_cpp.Sender.Request.Effects.{send_request-Requests}
use airplay2_sender_cpp.Sender.Invariant.{Inv, same-Inv, Requests-Inv}
use airplay2_sender_cpp.Sender.Lifecycle.{
  started, stopped, udp_released, release_sockets, clear_backlog, disconnected, to_idle, timers_off,
  report, fail, session_header, control_closed, on_tcp_closed, on_tcp_connect_failed, teardown,
  stop, fresh, start, backlog_size, has_session,
}

-- `t` is `s` without its bound sockets, but for what went out.
abbrev Released : Sender → Sender → Type 0
Released s t = t ≡ record s {
  out = t.out;
  link = record (s.link) { udp_bound = false; local_control_port = 0; local_timing_port = 0 };
}

udp_released-out : (s : Sender) → udp_released s ≡ record s { out = (udp_released s).out }
unfolding udp_released
udp_released-out s =
    if-both (λ (t : Sender). t ≡ record s { out = t.out }) s.link.udp_bound _ _ refl refl

release_sockets-Released : (s : Sender) → Released s (release_sockets s)
unfolding release_sockets
release_sockets-Released s =
    subst
      (λ (t : Sender). Released s (
        emit (tcp_close RaopTcp.event false) (record t {
          link = record (t.link) {
            udp_bound = false;
            local_control_port = 0;
            local_timing_port = 0;
          };
        })))
      (sym (udp_released-out s)) refl

-- What is released is not bound; the connection has to be down already if the sender is idle.
release_sockets-Inv :
    (s : Sender)
    → (length s.pending_methods ≡ length s.pending_is_http)
      × (length s.stream.backlog ≡ backlog_size)
      × (length s.stream.backlog_seq ≡ backlog_size)
      × (s.stream.frames_sent < 2 ^ 64)
      × Staged s.stream.input.in_buf
      × ((is_idle s.state && s.link.rtsp_connected) ≡ false)
    → Inv (release_sockets s)
release_sockets-Inv s f = subst Inv (sym (release_sockets-Released s)) (same-Inv f)

report-Inv : (was : Bool) (why : Bytes) (s : Sender) → Inv s → Inv (report was why s)
unfolding report
report-Inv true why s i = same-Inv i.facts
report-Inv false why s i = same-Inv i.facts

pub fail-Inv : (why : Bytes) (s : Sender) → Inv s → Inv (fail why s)
unfolding fail
fail-Inv why s i =
    let (paired, kept, tags, frames, staged, quiet) = i.facts in
    report-Inv (is_streaming s.state) why _ (
      release_sockets-Inv
        (disconnected (emit (tcp_close RaopTcp.control false) (timers_off (to_idle s))))
        (paired, kept, tags, frames, staged, refl))

quiet_down : (i u r : Bool) → (i && (u || r)) ≡ false → (i && (u || false)) ≡ false
quiet_down i u r e = ground arith

disconnected-Inv : (s : Sender) → Inv s → Inv (disconnected s)
disconnected-Inv s i =
    let (paired, kept, tags, frames, staged, quiet) = i.facts in
    same-Inv (
      paired,
      kept,
      tags,
      frames,
      staged,
      quiet_down (is_idle s.state) s.link.udp_bound s.link.rtsp_connected quiet,
    )

clear_backlog-Inv : (s : Sender) → Inv s → Inv (clear_backlog s)
clear_backlog-Inv s i =
    let (paired, kept, tags, frames, staged, quiet) = i.facts in
    same-Inv (
      paired,
      length-replicate {A = Bytes} backlog_size [],
      length-replicate {A = Option ℕ} backlog_size none,
      frames,
      staged,
      quiet,
    )

control_closed-Inv : (reason : Bytes) (s : Sender) → Inv s → Inv (control_closed reason s)
unfolding control_closed
control_closed-Inv reason s i =
    let t = disconnected s in
    let j = disconnected-Inv s i in
    let (paired, kept, tags, frames, staged, quiet) = i.facts in
    if-both Inv (is_idle s.state) _ _ j (
      if-both Inv _ _ _ (fail-Inv reason t j) (
        report-Inv (is_streaming s.state) (codes "Connection closed by the device") _ (
          clear_backlog-Inv _ (
            release_sockets-Inv (timers_off (to_idle t))
              (paired, kept, tags, frames, staged, refl)))))

pub on_tcp_closed-Inv :
    (ch : RaopTcp) (reason : Bytes) (s : Sender) → Inv s → Inv (on_tcp_closed ch reason s)
unfolding on_tcp_closed
on_tcp_closed-Inv RaopTcp.event reason s i = i
on_tcp_closed-Inv RaopTcp.control reason s i = control_closed-Inv reason s i

pub on_tcp_connect_failed-Inv :
    (ch : RaopTcp) (reason : Bytes) (s : Sender) → Inv s → Inv (on_tcp_connect_failed ch reason s)
unfolding on_tcp_connect_failed
on_tcp_connect_failed-Inv RaopTcp.event reason s i = i
on_tcp_connect_failed-Inv RaopTcp.control reason s i =
    if-both Inv (is_idle s.state) _ _ i (fail-Inv _ s i)

module _ (b : Backend) where
  teardown-Inv : (s : Sender) → Inv s → Inv (teardown b s)
  unfolding teardown
  teardown-Inv s i =
      if-both Inv (has_session s) _ _
        (Requests-Inv b (codes "TEARDOWN") false s _
          (send_request-Requests b (codes "TEARDOWN") (rtsp_uri s) [] [] (session_header s) s) i)
        i

  stopped-Inv : (escaped : Bool) (t : Sender) → Inv t → Inv (stopped b escaped t)
  unfolding stopped
  stopped-Inv escaped t i =
      let (paired, kept, tags, frames, staged, quiet) = i.facts in
      if-both Inv escaped _ _ i (
        clear_backlog-Inv _ (
          release_sockets-Inv (disconnected (emit (tcp_close RaopTcp.control true) (to_idle t)))
            (paired, kept, tags, frames, staged, refl)))

  pub stop-Inv : (s : Sender) → Inv s → Inv (stop b s)
  unfolding stop
  stop-Inv s i = if-both Inv (is_idle s.state) _ _ i (
      stopped-Inv ((teardown b (timers_off s)).fault && not s.fault) _
        (teardown-Inv (timers_off s) (same-Inv i.facts)))

  zero_small : 0 < 2 ^ 64
  zero_small = omega arith

  connection_down : (i u r : Bool) → (i && (u || r)) ≡ false → (i && r) ≡ false
  connection_down i u r e = ground arith

  started-Inv :
      (host : Bytes) (port : ℕ) (name : Bytes) (timing control audio : ℕ) (s : Sender)
      → Inv s
      → Inv (started b host port name timing control audio s)
  unfolding started fresh
  started-Inv host port name timing control audio s i =
      let (paired, kept, tags, frames, staged, quiet) = i.facts in
      let none_staged : Staged [] = (refl, omega arith) in
      let none_sent = length-replicate {A = Option ℕ} backlog_size none in
      let t = fresh b host name s in
      let v = record t {
        out =
            udp_bind RaopUdp.audio ∷ (udp_bind RaopUdp.control ∷ (udp_bind RaopUdp.timing ∷ t.out));
        link = record (t.link) {
          local_timing_port = timing;
          local_control_port = control;
          udp_bound = true;
        };
      } in
      let down = connection_down (is_idle s.state) s.link.udp_bound s.link.rtsp_connected quiet in
      let released = release_sockets-Inv v (refl, kept, none_sent, zero_small, none_staged, down) in
      if-both Inv ((timing == 0) || ((control == 0) || (audio == 0))) _ _ (same-Inv released.facts)
        (same-Inv (refl, kept, none_sent, zero_small, none_staged, refl))

  pub start-Inv :
      (host : Bytes) (port : ℕ) (name : Bytes) (timing control audio : ℕ) (s : Sender)
      → Inv s
      → Inv (start b host port name timing control audio s)
  unfolding start
  start-Inv host port name timing control audio s i =
      let j = stop-Inv s i in
      if-both Inv ((stop b s).fault && not s.fault) _ _ j
        (started-Inv host port name timing control audio (stop b s) j)
