-- ===== src/Sender/Rtp.antt =====
-- The packets of src/raop_sender.cpp: audio, sync, retransmission and timing, and the pacer.
pub mod Packets
pub mod Pace
pub mod Backlog
pub mod Encryption
pub mod Invariant
use airplay2_sender_cpp.Base.{
  ℕ, zero, suc, ◌+◌, ◌-◌, ◌*◌, ◌/◌, ◌%◌, ◌^◌, Bool, true, false, not, ◌&&◌, ◌||◌, List, [], ◌∷◌,
  ◌++◌, Option, none, some, Bytes, be_bytes, bit_and, get_or, length, take, drop, replicate, set,
  min, ltb, leb, ◌==◌, if◌then◌else◌,
}
use airplay2_sender_cpp.Sender.Resample.{fill_frames}
use airplay2_sender_cpp.Crypto.Backend.{Backend}
use airplay2_sender_cpp.Crypto.Aead.{counter_nonce8, encrypt}
use airplay2_sender_cpp.Frames.{next_counter}
use airplay2_sender_cpp.Sender.Stage.{is_idle}
use airplay2_sender_cpp.Sender.Action.{udp_send, RaopUdp, RaopEndpoint, Action}
use airplay2_sender_cpp.Sender.State.{Sender, Stream, Ap2, Ports, emit, crash}
use airplay2_sender_cpp.Sender.Clock.{raop_rate, latency, ts2ntp, ntp_now, rtptime32}
use airplay2_sender_cpp.Sender.Alac.{encode_alac_frame}

abbrev pub frames_per_packet : ℕ
frames_per_packet = 352

abbrev pub max_packets_per_tick : ℕ
max_packets_per_tick = 16

-- The twelve bytes of the RTP header.
unfoldable pub rtp_header : Sender → Bytes
rtp_header s =
    0x80
    ∷ ((if s.stream.first_audio then 0xE0 else 0x60)
        ∷ (be_bytes 2 s.stream.seq
            ++ (be_bytes 4 (rtptime32 s.stream.frames_sent) ++ be_bytes 4 s.session.session_id)))

-- Raw samples, big-endian.
unfoldable pub l16 : List ℕ → Bytes
l16 [] = []
l16 (x ∷ xs) = be_bytes 2 x ++ l16 xs

unfoldable pub encrypts_audio : Option Ap2 → Bool
encrypts_audio none = false
encrypts_audio (some a) = a.encrypt_audio

unfoldable pub audio_payload : Bool → List ℕ → Bytes
unfolding encode_alac_frame l16
audio_payload encrypted samples = if encrypted then encode_alac_frame samples else l16 samples

-- The packet goes out, into its slot of the backlog, and the stream moves on.
unfoldable pub commit_packet : Bytes → Sender → Sender
commit_packet pkt s =
    let slot = bit_and s.stream.seq 1023 in
    emit (udp_send RaopUdp.audio (record { ip = s.link.host_ip; port = s.ports.server_port }) pkt)
      (record s {
        stream = record (s.stream) {
          backlog = set s.stream.backlog slot pkt;
          backlog_seq = set s.stream.backlog_seq slot (some s.stream.seq);
          first_audio = false;
          seq = (s.stream.seq + 1) % 2 ^ 16;
          frames_sent = (s.stream.frames_sent + frames_per_packet) % 2 ^ 64;
        };
      })

-- `sendSyncPacket_`
abbrev pub sync_text : Bool → Stream → Bytes
sync_text first st =
    let now = rtptime32 st.frames_sent in
    let cur = ts2ntp ((st.start_ts + st.frames_sent) % 2 ^ 64) raop_rate in
    (if first then 0x90 else 0x80)
    ∷ (0xD4
        ∷ (be_bytes 2 0x0007
            ++ (be_bytes 4 ((now + 2 ^ 32 - latency) % 2 ^ 32)
                ++ (be_bytes 4 (cur / 2 ^ 32) ++ (be_bytes 4 cur ++ be_bytes 4 now)))))

unfoldable pub send_sync_packet : Bool → Sender → Sender
send_sync_packet first s =
    if (s.ports.server_port == 0) || (s.ports.control_port == 0)
    then s
    else emit
        (udp_send RaopUdp.control (record { ip = s.link.host_ip; port = s.ports.control_port })
          (sync_text first s.stream))
        s

-- Whether a slot of the backlog still holds the packet `seq`.
unfoldable pub holds : Option ℕ → ℕ → Bool
holds none seq = false
holds (some q) seq = q == seq

-- One round of the loop of `onControlDatagram_`.
unfoldable pub resend : RaopEndpoint → ℕ → Sender → Sender
unfolding holds
resend from seq s =
    let slot = bit_and seq 1023 in
    if holds (get_or s.stream.backlog_seq slot none) seq
    then emit
        (udp_send RaopUdp.control from
          (0x80 ∷ (0xD6 ∷ (be_bytes 2 seq ++ get_or s.stream.backlog slot []))))
        s
    else s

-- The loop from `i` on for `count` rounds.
unfoldable pub resend_loop : ℕ → ℕ → RaopEndpoint → ℕ → Sender → Sender
unfolding resend
resend_loop zero i from lost_seq s = s
resend_loop (suc count) i from lost_seq s =
    resend_loop count (suc i) from lost_seq (resend from ((lost_seq + i) % 2 ^ 16) s)

abbrev pub word16 : ℕ → Bytes → ℕ
word16 at dg = get_or dg at 0 * 256 + get_or dg (suc at) 0

-- `onControlDatagram_`
unfoldable pub on_control_datagram : Bytes → RaopEndpoint → Sender → Sender
unfolding resend_loop
on_control_datagram dg from s =
    let asked = resend_loop (word16 6 dg) 0 from (word16 4 dg) s in
    if ltb (length dg) 8 then s else if not (bit_and (get_or dg 1 0) 0x7F == 0x55) then s else asked

-- `onTimingDatagram_`
unfoldable pub on_timing_datagram : Bytes → RaopEndpoint → Sender → Sender
on_timing_datagram dg from s =
    let now = ntp_now s.wall in
    let stamp = be_bytes 4 (now / 2 ^ 32) ++ be_bytes 4 now in
    if ltb (length dg) 32
    then s
    else emit
        (udp_send RaopUdp.timing from (
          get_or dg 0 0
          ∷ (0xD3
              ∷ (be_bytes 2 0x0007
                  ++ (be_bytes 4 0 ++ (take 8 (drop 24 dg) ++ (stamp ++ stamp)))))))
        s

-- `onUdpDatagram`
unfoldable pub routed : RaopUdp → Bytes → RaopEndpoint → Sender → Sender
unfolding on_control_datagram on_timing_datagram
routed RaopUdp.control dg from s = on_control_datagram dg from s
routed RaopUdp.timing dg from s = on_timing_datagram dg from s
routed RaopUdp.audio dg from s = s

unfoldable pub on_udp_datagram : RaopUdp → Bytes → RaopEndpoint → Sender → Sender
unfolding routed
on_udp_datagram u dg from s = if is_idle s.state then s else routed u dg from s

-- The number of frames that the wall clock has reached: elapsed nanoseconds times the rate, on 64
-- bits.
unfoldable pub target_frames : ℕ → ℕ → ℕ
target_frames now clock_start =
    ((now + 2 ^ 64 - clock_start) % 2 ^ 64 * raop_rate) % 2 ^ 64 / 1000000000

module _ (b : Backend) where
  -- A payload with its trailing nonce, and the state after it.
  sealed : Sender → Ap2 → Option Bytes → Option (Bytes × Sender)
  sealed s a none = none
  sealed s a (some ct) = some (
    ct ++ counter_nonce8 a.audio_nonce,
    record s { ap2 = some (record a { audio_nonce = next_counter a.audio_nonce }) },
  )

  encrypt_with : Bytes → Bytes → Sender → Option Ap2 → Option (Bytes × Sender)
  unfolding sealed
  encrypt_with header payload s none = some (payload, s)
  encrypt_with header payload s (some a) =
      let text =
        encrypt b a.audio_key (counter_nonce8 a.audio_nonce) payload (take 8 (drop 4 header)) in
      if a.encrypt_audio then sealed s a text else some (payload, s)

  -- `encryptAudioPayload_`; `none` is the exception of a wrong key size.
  unfoldable pub encrypt_audio_payload : Bytes → Bytes → Sender → Option (Bytes × Sender)
  unfolding encrypt_with
  encrypt_audio_payload header payload s = encrypt_with header payload s s.ap2

  sent_packet : Bytes → Sender → Option (Bytes × Sender) → Sender
  unfolding commit_packet
  sent_packet header s none = crash s
  sent_packet header s (some (wire, t)) = commit_packet (header ++ wire) t

  -- `sendAudioPacket_`
  unfoldable pub send_audio_packet : Sender → Sender
  unfolding sent_packet fill_frames encrypt_audio_payload
  send_audio_packet s =
      let (samples, stream) = fill_frames frames_per_packet s.stream in
      let t = record s { stream = stream } in
      let header = rtp_header t in
      sent_packet header t
        (encrypt_audio_payload header (audio_payload (encrypts_audio t.ap2) samples) t)

  -- The loop of `onPacerTick_`, for at most `fuel` packets. An exception ends it.
  unfoldable pub pacer_loop : ℕ → ℕ → Sender → Sender
  unfolding send_audio_packet
  pacer_loop zero target s = s
  pacer_loop (suc fuel) target s =
      elim (leb ((s.stream.frames_sent + frames_per_packet) % 2 ^ 64) target && not s.fault) [
        | true ↦ pacer_loop fuel target (send_audio_packet s)
        | false ↦ s
      ]

  -- `onPacerTick_`
  unfoldable pub on_pacer_tick : Sender → Sender
  unfolding pacer_loop
  on_pacer_tick s = pacer_loop max_packets_per_tick (target_frames s.now s.stream.clock_start) s
