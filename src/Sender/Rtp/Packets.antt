-- ===== src/Sender/Rtp/Packets.antt =====
-- One audio packet of src/raop_sender.cpp: what goes out and what it counts for.
use airplay2_sender_cpp.Base.{
  sym, drop, take, Option-cases, ℕ, zero, suc, ◌+◌, ◌^◌, ◌%◌, ◌≡◌, refl, ap, ◌∙◌, false, Option,
  none, some, Bytes, arith, Bool-cases, inl, inr, List, [], ◌∷◌, ◌++◌, map, length, be_bytes, ◌/◌,
}
use airplay2_sender_cpp.Sender.Resample.Sizes.{fill_frames-Keeps}
use airplay2_sender_cpp.Crypto.Backend.{Backend}
use airplay2_sender_cpp.Crypto.Aead.{encrypt, counter_nonce8}
use airplay2_sender_cpp.Sender.Action.{Action, RaopUdp, udp_send}
use airplay2_sender_cpp.Sender.State.{Stream, Sender, Ap2, Link, Ports}
use airplay2_sender_cpp.Sender.Rtp.{
  counter_nonce8, encrypt, frames_per_packet, fill_frames, sent_packet, encrypt_with,
  encrypt_audio_payload, send_audio_packet, rtp_header, audio_payload, encrypts_audio, sealed,
  commit_packet,
}

-- The call of `udpSend` that takes a packet to the audio port of the receiver.
abbrev pub audio_send : Sender → Bytes → Action
audio_send s packet =
    udp_send RaopUdp.audio (record { ip = s.link.host_ip; port = s.ports.server_port }) packet

-- What a packet leaves alone.
pub record Same (s t : Sender) : Type 0 where
  pub link : t.link ≡ s.link
  pub ports : t.ports ≡ s.ports

-- An encryption that succeeds leaves the stream alone and sends nothing.
record Untouched (s t : Sender) : Type 0 where
  stream : t.stream ≡ s.stream
  fault : t.fault ≡ s.fault
  out : t.out ≡ s.out
  same : Same s t

ap2-Untouched : (s : Sender) (a : Option Ap2) → Untouched s (record s { ap2 = a })
ap2-Untouched s a = record {
  stream = refl;
  fault = refl;
  out = refl;
  same = record { link = refl; ports = refl };
}

-- The sequence number that a packet carries.
abbrev pub sequence_of : Bytes → Bytes
sequence_of packet = take 2 (drop 2 packet)

-- The sequence numbers of `n` packets from `seq` on, the last one first.
unfoldable pub numbers : ℕ → ℕ → List Bytes
numbers zero seq = []
numbers (suc n) seq = be_bytes 2 (seq + n) ∷ numbers n seq

pub numbers-wrapped : (n seq : ℕ) → numbers n (seq % 2 ^ 16) ≡ numbers n seq
unfolding numbers
numbers-wrapped zero seq = refl
numbers-wrapped (suc n) seq =
    ap (λ v. be_bytes 2 (seq % 2 ^ 16 + n) ∷ v) (numbers-wrapped n seq)
    ∙ (ap (λ h. (h ∷ ((seq % 2 ^ 16 + n) / 256 ^ 0 % 256 ∷ [])) ∷ numbers n seq) (omega arith)
        ∙ ap (λ l. ((seq + n) / 256 ^ 1 % 256 ∷ (l ∷ [])) ∷ numbers n seq) (omega arith))

-- The packet before them.
numbers-earlier : (n seq : ℕ) → numbers n (seq + 1) ++ be_bytes 2 seq ∷ [] ≡ numbers (suc n) seq
unfolding numbers
numbers-earlier zero seq = ap (λ v. be_bytes 2 v ∷ []) (omega arith)
numbers-earlier (suc n) seq =
    ap (λ v. be_bytes 2 v ∷ (numbers n (seq + 1) ++ be_bytes 2 seq ∷ [])) (omega arith)
    ∙ ap (λ v. be_bytes 2 (seq + suc n) ∷ v) (numbers-earlier n seq)

-- One packet has gone out, and the frames are counted.
pub record Sent (s t : Sender) : Type 0 where
  pub fault : s.fault ≡ false
  pub packet : Bytes
  pub out : t.out ≡ audio_send s packet ∷ s.out
  pub number : sequence_of packet ≡ be_bytes 2 s.stream.seq
  pub next : t.stream.seq ≡ (s.stream.seq + 1) % 2 ^ 16
  pub frames : t.stream.frames_sent ≡ (s.stream.frames_sent + frames_per_packet) % 2 ^ 64
  pub same : Same s t

-- Another packet for the same port.
pub map-audio_send :
    (s t : Sender)
    → Same s t
    → (packets : List Bytes) → map (audio_send t) packets ≡ map (audio_send s) packets
map-audio_send s t same packets =
    ap
      (λ (l : Link).
        map (λ x. udp_send RaopUdp.audio (record { ip = l.host_ip; port = t.ports.server_port }) x)
          packets)
      same.link
    ∙ ap
        (λ (p : Ports).
          map (λ x. udp_send RaopUdp.audio (record { ip = s.link.host_ip; port = p.server_port }) x)
            packets)
        same.ports

-- A packet that went out before the others.
pub map-earlier :
    {A B : Type 0} (f : A → B) (xs : List A) (x : A) (rest : List B)
    → map f xs ++ f x ∷ rest ≡ map f (xs ++ x ∷ []) ++ rest
map-earlier f [] x rest = refl
map-earlier f (y ∷ xs) x rest = ap (◌∷◌ (f y)) (map-earlier f xs x rest)

map-last :
    {A B : Type 0} (f : A → B) (xs : List A) (x : A) → map f (xs ++ x ∷ []) ≡ map f xs ++ f x ∷ []
map-last f [] x = refl
map-last f (y ∷ xs) x = ap (◌∷◌ (f y)) (map-last f xs x)

-- The numbers of `packets` after the one of `packet`.
pub numbered-earlier :
    (packets : List Bytes) (packet : Bytes) (seq next : ℕ)
    → next ≡ (seq + 1) % 2 ^ 16
    → sequence_of packet ≡ be_bytes 2 seq
    → map sequence_of packets ≡ numbers (length packets) next
    → map sequence_of (packets ++ packet ∷ []) ≡ numbers (suc (length packets)) seq
numbered-earlier packets packet seq next e first rest =
    map-last sequence_of packets packet
    ∙ (ap (λ v. map sequence_of packets ++ v ∷ []) first
        ∙ (ap (λ v. v ++ be_bytes 2 seq ∷ [])
              (rest
                ∙ (ap (numbers (length packets)) e ∙ numbers-wrapped (length packets) (seq + 1)))
            ∙ numbers-earlier (length packets) seq))

module _ (b : Backend) where
  abbrev Keeps : Sender → Option (Bytes × Sender) → Type 0
  Keeps s none = Unit {0}
  Keeps s (some (wire, t)) = Untouched s t

  encrypt_with-Keeps :
      (header payload : Bytes) (s : Sender) (o : Option Ap2)
      → Keeps s (encrypt_with b header payload s o)
  unfolding encrypt_with sealed
  encrypt_with-Keeps header payload s none = ap2-Untouched s _
  encrypt_with-Keeps header payload s (some a) = elim (Bool-cases a.encrypt_audio) [
    | inl e ↦
        rw e
          (elim (Option-cases (
            encrypt b a.audio_key (counter_nonce8 a.audio_nonce) payload
              (take 8 (drop 4 header)))) [
                | inl none_e ↦ rw none_e tt
                | inr (ct, some_e) ↦ rw some_e (ap2-Untouched s _)
              ])
    | inr e ↦ rw e (ap2-Untouched s _)
  ]

  sent_packet-Sent :
      (header : Bytes) (s : Sender) (r : Option (Bytes × Sender))
      → ((wire : Bytes) → sequence_of (header ++ wire) ≡ be_bytes 2 s.stream.seq)
      → Keeps s r
      → (sent_packet b header s r).fault ≡ false
      → Sent s (sent_packet b header s r)
  unfolding sent_packet commit_packet
  sent_packet-Sent header s none numbered k h = cc
  sent_packet-Sent header s (some (wire, t)) numbered k h = record {
    fault = sym k.fault ∙ h;
    packet = header ++ wire;
    out =
        ap
          (λ (l : Link).
            udp_send RaopUdp.audio (record { ip = l.host_ip; port = t.ports.server_port })
              (header ++ wire)
            ∷ t.out)
          k.same.link
        ∙ (ap
              (λ (p : Ports).
                udp_send RaopUdp.audio (record { ip = s.link.host_ip; port = p.server_port })
                  (header ++ wire)
                ∷ t.out)
              k.same.ports
            ∙ ap (λ o. audio_send s (header ++ wire) ∷ o) k.out);
    number = numbered wire;
    next = ap (λ u. (u.seq + 1) % 2 ^ 16) k.stream;
    frames = ap (λ u. (u.frames_sent + frames_per_packet) % 2 ^ 64) k.stream;
    same = record { link = k.same.link; ports = k.same.ports };
  }

  -- A packet goes out and the stream moves on by its frames, unless an exception has escaped.
  pub send_audio_packet-Sent :
      (s : Sender) → (send_audio_packet b s).fault ≡ false → Sent s (send_audio_packet b s)
  unfolding send_audio_packet encrypt_audio_payload rtp_header
  send_audio_packet-Sent s h =
      let t = record s { stream = (fill_frames frames_per_packet s.stream).1 } in
      let header = rtp_header t in
      let payload =
        audio_payload (encrypts_audio t.ap2) (fill_frames frames_per_packet s.stream).0 in
      let sent =
        sent_packet-Sent header t (encrypt_with b header payload t t.ap2) (λ wire. refl)
          (encrypt_with-Keeps header payload t t.ap2) h in
      let same : t.stream.frames_sent ≡ s.stream.frames_sent =
        ap (λ (st : Stream). st.frames_sent) (fill_frames-Keeps frames_per_packet s.stream) in
      let same_seq : t.stream.seq ≡ s.stream.seq =
        ap (λ (st : Stream). st.seq) (fill_frames-Keeps frames_per_packet s.stream) in
      record {
        fault = sent.fault;
        packet = sent.packet;
        out = sent.out;
        number = sent.number ∙ ap (be_bytes 2) same_seq;
        next = sent.next ∙ ap (λ q. (q + 1) % 2 ^ 16) same_seq;
        frames = sent.frames ∙ ap (λ f. (f + frames_per_packet) % 2 ^ 64) same;
        same = record { link = sent.same.link; ports = sent.same.ports };
      }
