-- ===== src/Sender/Clock/Accuracy.antt =====
-- The conversions of time stamps lose at most one frame.
use airplay2_sender_cpp.Base.{ℕ, ◌+◌, ◌*◌, ◌^◌, ◌≤◌, ◌<◌, arith}
use airplay2_sender_cpp.Sender.Clock.{ntp2ts, ts2ntp, raop_rate}

-- A frame count of less than 2 ^ 32 seconds at 44100 frames a second that is turned into an NTP time and back comes back as it was or as
-- its predecessor.
pub ntp2ts-ts2ntp :
    (ts : ℕ)
    → ts < raop_rate * 2 ^ 32
    → (ntp2ts (ts2ntp ts raop_rate) raop_rate ≤ ts)
      × (ts ≤ ntp2ts (ts2ntp ts raop_rate) raop_rate + 1)
unfolding ntp2ts ts2ntp
ntp2ts-ts2ntp ts h = (omega arith, omega arith)
