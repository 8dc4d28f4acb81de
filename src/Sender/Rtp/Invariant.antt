-- ===== src/Sender/Rtp/Invariant.antt =====
-- Packets, retransmissions and the pacer of src/raop_sender.cpp keep the invariant.
use airplay2_sender_cpp.Sender.Resample.Sizes.{fill_frames-Fills}
use airplay2_sender_cpp.Base.{
  sym, subst, get_or, length, ℕ, zero, suc, ◌+◌, ◌%◌, ◌^◌, ◌<◌, ◌∙◌, Bool, not, ◌&&◌, ◌||◌, Option,
  none, some, Bytes, length-set, bit_and, leb, ltb, ◌==◌, if-both, elim-split, arith, ◌++◌,
}
use airplay2_sender_cpp.Crypto.Backend.{Backend}
use airplay2_sender_cpp.Sender.Stage.{is_idle}
use airplay2_sender_cpp.Sender.Action.{RaopUdp, RaopEndpoint}
use airplay2_sender_cpp.Sender.State.{Stream, Sender, Ap2}
use airplay2_sender_cpp.Sender.Invariant.{Inv, same-Inv}
use airplay2_sender_cpp.Sender.Resample.{fill_frames}
use airplay2_sender_cpp.Sender.Rtp.{
  frames_per_packet, commit_packet, send_sync_packet, resend, resend_loop, on_control_datagram,
  on_timing_datagram, routed, on_udp_datagram, sealed, encrypt_with, encrypt_audio_payload,
  sent_packet, send_audio_packet, pacer_loop, on_pacer_tick, target_frames, max_packets_per_tick,
  fill_frames, rtp_header, holds, word16,
}

wraps : (n : ℕ) → n % 2 ^ 64 < 2 ^ 64
wraps n = omega arith

fill_frames-Inv :
    (want : ℕ) (s : Sender) → Inv s → Inv (record s { stream = (fill_frames want s.stream).1 })
fill_frames-Inv want s i =
    let (paired, kept, tags, frames, staged, quiet) = i.facts in
    let (sized, filled, staged', same) = fill_frames-Fills want s.stream staged in
    subst (λ (st : Stream). Inv (record s { stream = st })) (sym same)
      (same-Inv (paired, kept, tags, frames, staged', quiet))

pub commit_packet-Inv : (pkt : Bytes) (s : Sender) → Inv s → Inv (commit_packet pkt s)
unfolding commit_packet
commit_packet-Inv pkt s i =
    let (paired, kept, tags, frames, staged, quiet) = i.facts in
    let slot = bit_and s.stream.seq 1023 in
    same-Inv (
      paired,
      length-set s.stream.backlog slot pkt ∙ kept,
      length-set s.stream.backlog_seq slot (some s.stream.seq) ∙ tags,
      wraps (s.stream.frames_sent + frames_per_packet),
      staged,
      quiet,
    )

pub send_sync_packet-Inv : (first : Bool) (s : Sender) → Inv s → Inv (send_sync_packet first s)
unfolding send_sync_packet
send_sync_packet-Inv first s i =
    if-both Inv ((s.ports.server_port == 0) || (s.ports.control_port == 0)) _ _ i (same-Inv i.facts)

resend-Inv : (from : RaopEndpoint) (seq : ℕ) (s : Sender) → Inv s → Inv (resend from seq s)
unfolding resend
resend-Inv from seq s i =
    if-both Inv (holds (get_or s.stream.backlog_seq (bit_and seq 1023) none) seq) _ _
      (same-Inv i.facts) i

resend_loop-Inv :
    (count i : ℕ) (from : RaopEndpoint) (lost_seq : ℕ) (s : Sender)
    → Inv s
    → Inv (resend_loop count i from lost_seq s)
unfolding resend_loop
resend_loop-Inv zero i from lost_seq s v = v
resend_loop-Inv (suc count) i from lost_seq s v =
    resend_loop-Inv count (suc i) from lost_seq _ (resend-Inv from ((lost_seq + i) % 2 ^ 16) s v)

routed-Inv :
    (u : RaopUdp) (dg : Bytes) (from : RaopEndpoint) (s : Sender) → Inv s → Inv (routed u dg from s)
unfolding routed on_control_datagram on_timing_datagram
routed-Inv RaopUdp.control dg from s i = if-both Inv (ltb (length dg) 8) _ _ i (
    if-both Inv (not (bit_and (get_or dg 1 0) 0x7F == 0x55)) _ _ i
      (resend_loop-Inv (word16 6 dg) 0 from (word16 4 dg) s i))
routed-Inv RaopUdp.timing dg from s i = if-both Inv (ltb (length dg) 32) _ _ i (same-Inv i.facts)
routed-Inv RaopUdp.audio dg from s i = i

pub on_udp_datagram-Inv :
    (u : RaopUdp) (dg : Bytes) (from : RaopEndpoint) (s : Sender)
    → Inv s
    → Inv (on_udp_datagram u dg from s)
unfolding on_udp_datagram
on_udp_datagram-Inv u dg from s i = if-both Inv (is_idle s.state) _ _ i (routed-Inv u dg from s i)

-- The state that a payload leaves.
data Left : Option (Bytes × Sender) → Type 0 where
  gone : Left none
  left : (wire : Bytes) (t : Sender) → Inv t → Left (some (wire, t))

module _ (b : Backend) where
  sealed-Left : (s : Sender) (a : Ap2) (ct : Option Bytes) → Inv s → Left (sealed b s a ct)
  unfolding sealed
  sealed-Left s a none i = gone
  sealed-Left s a (some ct) i = left _ _ (same-Inv i.facts)

  encrypt_with-Left :
      (header payload : Bytes) (s : Sender) (o : Option Ap2)
      → Inv s
      → Left (encrypt_with b header payload s o)
  unfolding encrypt_with
  encrypt_with-Left header payload s none i = left _ _ i
  encrypt_with-Left header payload s (some a) i =
      if-both Left a.encrypt_audio _ _ (sealed-Left s a _ i) (left _ _ i)

  sent_packet-Inv :
      (header : Bytes) (s : Sender) (o : Option (Bytes × Sender))
      → Inv s
      → Left o
      → Inv (sent_packet b header s o)
  unfolding sent_packet
  sent_packet-Inv header s none i l = same-Inv i.facts
  sent_packet-Inv header s (some (wire, t)) i (left _ _ j) = commit_packet-Inv (header ++ wire) t j

  send_audio_packet-Inv : (s : Sender) → Inv s → Inv (send_audio_packet b s)
  unfolding send_audio_packet encrypt_audio_payload
  send_audio_packet-Inv s i =
      let t = record s { stream = (fill_frames frames_per_packet s.stream).1 } in
      let j : Inv t = fill_frames-Inv frames_per_packet s i in
      sent_packet-Inv (rtp_header t) t _ j (encrypt_with-Left (rtp_header t) _ t t.ap2 j)

  pacer_loop-Inv : (fuel target : ℕ) (s : Sender) → Inv s → Inv (pacer_loop b fuel target s)
  unfolding pacer_loop
  pacer_loop-Inv zero target s i = i
  pacer_loop-Inv (suc fuel) target s i =
      elim-split Inv
        (leb ((s.stream.frames_sent + frames_per_packet) % 2 ^ 64) target && not s.fault) _ _
        (λ e. pacer_loop-Inv fuel target _ (send_audio_packet-Inv s i)) (λ e. i)

  pub on_pacer_tick-Inv : (s : Sender) → Inv s → Inv (on_pacer_tick b s)
  unfolding on_pacer_tick
  on_pacer_tick-Inv s i =
      pacer_loop-Inv max_packets_per_tick (target_frames s.now s.stream.clock_start) s i
