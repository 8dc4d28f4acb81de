-- ===== src/Sender/Clock.antt =====
-- Time stamps of src/raop_sender.cpp: `ntp2ts`, `ts2ntp`, `ntpNow_`, `rtptime32_`.
-- Integers of 64 and 32 bits wrap.
pub mod Accuracy
use airplay2_sender_cpp.Base.{
  [], ℕ, ◌+◌, ◌-◌, ◌*◌, ◌/◌, ◌%◌, ◌^◌, ◌++◌, Bytes, codes, bit_or, ltb, ◌==◌, if◌then◌else◌,
}
use airplay2_sender_cpp.Text.Numbers.{to_string}

abbrev pub raop_rate : ℕ
raop_rate = 44100

-- `latency_`
abbrev pub latency : ℕ
latency = 22050 + 44100

unfoldable pub ntp2ts : ℕ → ℕ → ℕ
ntp2ts ntp rate = (ntp / 2 ^ 16 * rate) % 2 ^ 64 / 2 ^ 16

unfoldable pub ts2ntp : ℕ → ℕ → ℕ
ts2ntp ts rate = ((ts * 2 ^ 16) % 2 ^ 64 / rate * 2 ^ 16) % 2 ^ 64

-- `ntpNow_` for a wall clock in microseconds; the low half is below 2 ^ 32, so that the bitwise
-- or is a sum.
unfoldable pub ntp_now : ℕ → ℕ
ntp_now us = ((us / 1000000 + 0x83AA7E80) * 2 ^ 32) % 2 ^ 64 + (us % 1000000) * 2 ^ 32 / 1000000

-- `rtptime32_`
unfoldable pub rtptime32 : ℕ → ℕ
rtptime32 frames_sent = (latency + frames_sent) % 2 ^ 32
