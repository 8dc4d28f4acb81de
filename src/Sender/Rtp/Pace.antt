-- ===== src/Sender/Rtp/Pace.antt =====
-- The pacer of src/raop_sender.cpp.
use airplay2_sender_cpp.Base.{
  leb_false→lt, sym, &&_eq_true, ◌⊎◌, ℕ, zero, suc, ◌+◌, ◌*◌, ◌^◌, ◌%◌, ◌≤◌, ◌<◌, ◌≡◌, refl, ap,
  ◌∙◌, Bool, true, false, Bytes, arith, leb, Bool-cases, inl, inr, not, ◌&&◌, leb→le, List, [], ◌∷◌,
  ◌++◌, map, length, length-append,
}
use airplay2_sender_cpp.Crypto.Backend.{Backend}
use airplay2_sender_cpp.Sender.State.{Sender}
use airplay2_sender_cpp.Sender.Rtp.{
  frames_per_packet, target_frames, send_audio_packet, pacer_loop, on_pacer_tick,
}
use airplay2_sender_cpp.Sender.Rtp.Packets.{
  audio_send, sequence_of, numbers, Sent, map-audio_send, map-earlier, numbered-earlier,
  send_audio_packet-Sent,
}

-- The packets have gone out, the latest first, and nothing else; none of them is early, and either
-- the pacer has caught up with `target` or these were all that it may send.
record Paced (fuel target : ℕ) (s t : Sender) : Type 0 where
  packets : List Bytes
  out : t.out ≡ map (audio_send s) packets ++ s.out
  numbered : map sequence_of packets ≡ numbers (length packets) s.stream.seq
  bound : length packets ≤ fuel
  frames : t.stream.frames_sent ≡ s.stream.frames_sent + frames_per_packet * length packets
  early : (length packets ≡ 0) ⊎ (t.stream.frames_sent ≤ target)
  caught_up : (length packets ≡ fuel) ⊎ (target < t.stream.frames_sent + frames_per_packet)

-- What a tick has done `elapsed` nanoseconds into the stream: at most 16 packets have gone to the
-- audio port, the latest first, with consecutive sequence numbers, and nothing else; each counts
-- for 352 frames; the frames are no more than 44100 for each second elapsed; and after fewer than 16
-- packets another one would be too many.
pub record Paces (elapsed : ℕ) (s t : Sender) : Type 0 where
  pub packets : List Bytes
  pub out : t.out ≡ map (audio_send s) packets ++ s.out
  pub numbered : map sequence_of packets ≡ numbers (length packets) s.stream.seq
  pub bound : length packets ≤ 16
  pub frames : t.stream.frames_sent ≡ s.stream.frames_sent + 352 * length packets
  pub early : (length packets ≡ 0) ⊎ (t.stream.frames_sent * 1000000000 ≤ elapsed * 44100)
  pub caught_up :
      (length packets ≡ 16) ⊎ (elapsed * 44100 < (t.stream.frames_sent + 352) * 1000000000)

-- `target_frames` on a clock that has not run for longer than 64 bits of `elapsed * 44100`.
abbrev Reached : ℕ → ℕ → Type 0
Reached elapsed target =
    (target * 1000000000 ≤ elapsed * 44100) × (elapsed * 44100 < (target + 1) * 1000000000)

target_frames-Reached :
    (now clock_start elapsed : ℕ)
    → now ≡ clock_start + elapsed
    → elapsed * 44100 < 2 ^ 64
    → Reached elapsed (target_frames now clock_start)
unfolding target_frames
target_frames-Reached now clock_start elapsed e small = (omega arith, omega arith)

Paced-Paces :
    (elapsed target : ℕ) (s t : Sender)
    → Reached elapsed target
    → Paced 16 target s t
    → Paces elapsed s t
Paced-Paces elapsed target s t (low, high) p = record {
  packets = p.packets;
  out = p.out;
  numbered = p.numbered;
  bound = p.bound;
  frames = p.frames;
  early = elim p.early [ inl z ↦ inl z | inr le ↦ inr (omega arith) ];
  caught_up = elim p.caught_up [ inl full ↦ inl full | inr lt ↦ inr (omega arith) ];
}

module _ (b : Backend) where
  -- Whether another packet is due.
  abbrev due : ℕ → Sender → Bool
  due target s = leb ((s.stream.frames_sent + frames_per_packet) % 2 ^ 64) target && not s.fault

  due_false :
      (target : ℕ) (s : Sender)
      → due target s ≡ false
      → s.fault ≡ false
      → target < (s.stream.frames_sent + frames_per_packet) % 2 ^ 64
  due_false target s e h =
      elim (Bool-cases (leb ((s.stream.frames_sent + frames_per_packet) % 2 ^ 64) target)) [
        | inl le ↦ cc
        | inr gt ↦ leb_false→lt _ _ gt
      ]

  due_true :
      (target : ℕ) (s : Sender)
      → due target s ≡ true
      → (s.stream.frames_sent + frames_per_packet) % 2 ^ 64 ≤ target
  due_true target s e =
      leb→le _ _
        (&&_eq_true (leb ((s.stream.frames_sent + frames_per_packet) % 2 ^ 64) target) (not s.fault)
          e).0

  pacer_loop-fault :
      (fuel target : ℕ) (s : Sender) → (pacer_loop b fuel target s).fault ≡ false → s.fault ≡ false
  unfolding pacer_loop
  pacer_loop-fault zero target s = λ h. h
  pacer_loop-fault (suc fuel) target s = elim (Bool-cases (due target s)) [
    | inl e ↦
        rw (e, pacer_loop)
          (λ h.
            (send_audio_packet-Sent b s
              (pacer_loop-fault fuel target (send_audio_packet b s) h)).fault)
    | inr e ↦ rw (e, pacer_loop) (λ h. h)
  ]

  -- One packet in front of what the others do.
  Paced-suc :
      (fuel target : ℕ) (s u t : Sender)
      → due target s ≡ true
      → s.stream.frames_sent + frames_per_packet * suc fuel < 2 ^ 64
      → Sent s u
      → Paced fuel target u t
      → Paced (suc fuel) target s t
  Paced-suc fuel target s u t e small sent rest =
      let first = due_true target s e in
      let count : length (rest.packets ++ sent.packet ∷ []) ≡ suc (length rest.packets) =
        omega (arith, length-append rest.packets (sent.packet ∷ [])) in
      record {
        packets = rest.packets ++ sent.packet ∷ [];
        out =
            rest.out
            ∙ (ap (λ p. p ++ u.out) (map-audio_send s u sent.same rest.packets)
                ∙ (ap (λ o. map (audio_send s) rest.packets ++ o) sent.out
                    ∙ map-earlier (audio_send s) rest.packets sent.packet s.out));
        numbered =
            numbered-earlier rest.packets sent.packet s.stream.seq u.stream.seq sent.next
              sent.number rest.numbered
            ∙ ap (λ n. numbers n s.stream.seq) (sym count);
        bound = omega (arith, count, rest.bound);
        frames = omega (arith, count, rest.frames, sent.frames);
        early = elim rest.early [
          | inl z ↦ inr (omega (arith, z, first, rest.frames, sent.frames))
          | inr le ↦ inr le
        ];
        caught_up = elim rest.caught_up [
          | inl full ↦ inl (count ∙ ap suc full)
          | inr caught ↦ inr caught
        ];
      }

  pacer_loop-Paced :
      (fuel target : ℕ) (s : Sender)
      → s.stream.frames_sent + frames_per_packet * fuel < 2 ^ 64
      → (pacer_loop b fuel target s).fault ≡ false
      → Paced fuel target s (pacer_loop b fuel target s)
  unfolding pacer_loop numbers
  pacer_loop-Paced zero target s small = λ h. record {
    packets = [];
    out = refl;
    numbered = refl;
    bound = omega arith;
    frames = omega arith;
    early = inl refl;
    caught_up = inl refl;
  }
  pacer_loop-Paced (suc fuel) target s small = elim (Bool-cases (due target s)) [
    | inl e ↦
        rw (e, pacer_loop)
          (λ h.
            let u = send_audio_packet b s in
            let sent = send_audio_packet-Sent b s (pacer_loop-fault fuel target u h) in
            Paced-suc fuel target s u (pacer_loop b fuel target u) e small sent
              (pacer_loop-Paced fuel target u (omega (arith, small, sent.frames)) h))
    | inr e ↦
        rw (e, pacer_loop)
          (λ h. record {
            packets = [];
            out = refl;
            numbered = refl;
            bound = omega arith;
            frames = omega arith;
            early = inl refl;
            caught_up = inr (omega (arith, due_false target s e h));
          })
  ]

  -- Unless an exception escapes, `elapsed` nanoseconds after the start of the stream a tick of the
  -- pacer sends at most 16 packets to the audio port of the receiver, with consecutive sequence
  -- numbers, and nothing else. None of them
  -- runs ahead of the wall clock, at 44100 frames a second, and it stops short of 16 only when less
  -- than a packet is missing. It is assumed that `elapsed * 44100` fits 64 bits (4.8 days), and that
  -- so do the frames sent so far and those of 16 more packets.
  pub on_pacer_tick-Paces :
      (s : Sender) (elapsed : ℕ)
      → s.now ≡ s.stream.clock_start + elapsed
      → elapsed * 44100 < 2 ^ 64
      → s.stream.frames_sent + 352 * 16 < 2 ^ 64
      → (on_pacer_tick b s).fault ≡ false
      → Paces elapsed s (on_pacer_tick b s)
  unfolding on_pacer_tick
  on_pacer_tick-Paces s elapsed e fits small h =
      let target = target_frames s.now s.stream.clock_start in
      Paced-Paces elapsed target s (on_pacer_tick b s)
        (target_frames-Reached s.now s.stream.clock_start elapsed e fits)
        (pacer_loop-Paced 16 target s small h)
