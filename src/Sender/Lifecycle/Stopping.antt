-- ===== src/Sender/Lifecycle/Stopping.antt =====
-- What `stop` of src/raop_sender.cpp leaves behind.
use airplay2_sender_cpp.Base.{◌≡◌, ◌++◌, true, false, if◌then◌else◌, ◌&&◌, Bool}
use airplay2_sender_cpp.Crypto.Backend.{Backend}
use airplay2_sender_cpp.Sender.Stage.{State, is_shaking}
use airplay2_sender_cpp.Sender.State.{Sender, Timers, stop_timers, arm}
use airplay2_sender_cpp.Sender.Lifecycle.Closing.{closing}
use airplay2_sender_cpp.Sender.Lifecycle.{stopped, has_session, stopped}

-- What releasing the sockets does to a session that is over.
abbrev Released : Sender → Sender → Type 0
Released s t =
    (t.state ≡ s.state)
    × (t.link.rtsp_connected ≡ s.link.rtsp_connected)
    × (t.link.udp_bound ≡ false)
    × (t.timers ≡ s.timers)

-- The timers as `stop` leaves them: all off, but the handshake watchdog armed again by a TEARDOWN
-- that goes out before the handshake is over.
abbrev pub stopped_timers : Sender → Timers
stopped_timers s =
    let off = stop_timers s.timers in
    if has_session s && is_shaking s.state
    then record off { timeout = arm s.now off.timeout }
    else off

module _ (b : Backend) where
  -- A session that is over after its TEARDOWN.
  abbrev Stopped : Bool → Sender → Sender → Type 0
  Stopped bound told t =
      (t.state ≡ State.idle) × (t.timers ≡ told.timers) × (t.out ≡ closing true bound ++ told.out)
