-- ===== src/Sender/Rtp/Backlog.antt =====
-- The retransmission backlog of src/raop_sender.cpp: the slot of a packet is its sequence number
-- modulo 1024.
use airplay2_sender_cpp.Base.{
  ℕ, zero, suc, ◌+◌, ◌^◌, ◌%◌, ◌<◌, ◌≡◌, ◌≢◌, refl, ap, ◌∙◌, none, some, List, [], ◌∷◌, ◌++◌, Bytes,
  arith, length, get_or, set, be_bytes, bit_and, bit_and_mask, ==_self, length-set,
}
use airplay2_sender_cpp.Sender.Action.{udp_send, RaopUdp, RaopEndpoint}
use airplay2_sender_cpp.Sender.State.{Sender, emit}
use airplay2_sender_cpp.Sender.Rtp.{commit_packet, holds, resend}

module _ {A : Type 0} where
  get_or-set : (xs : List A) (i : ℕ) (v d : A) → i < length xs → get_or (set xs i v) i d ≡ v
  get_or-set [] i v d h = absurd (omega arith)
  get_or-set (x ∷ xs) zero v d h = refl
  get_or-set (x ∷ xs) (suc i) v d h = get_or-set xs i v d (omega arith)

  get_or-set_other :
      (xs : List A) (i j : ℕ) (v d : A) → i ≢ j → get_or (set xs i v) j d ≡ get_or xs j d
  get_or-set_other [] i j v d h = refl
  get_or-set_other (x ∷ xs) zero zero v d h = absurd (h refl)
  get_or-set_other (x ∷ xs) zero (suc j) v d h = refl
  get_or-set_other (x ∷ xs) (suc i) zero v d h = refl
  get_or-set_other (x ∷ xs) (suc i) (suc j) v d h = get_or-set_other xs i j v d (λ e. h (ap suc e))

-- The packets go out one after the other.
pub commit_all : List Bytes → Sender → Sender
unfolding commit_packet
commit_all [] s = s
commit_all (pkt ∷ pkts) s = commit_all pkts (commit_packet pkt s)

-- Packet `pkt` of sequence number `q` is in its slot.
abbrev Stored : ℕ → Bytes → Sender → Type 0
Stored q pkt s =
    (get_or s.stream.backlog_seq (q % 1024) none ≡ some q)
    × (get_or s.stream.backlog (q % 1024) [] ≡ pkt)

abbrev pub Sized : Sender → Type 0
Sized s =
    (length s.stream.backlog ≡ 1024)
    × (length s.stream.backlog_seq ≡ 1024)
    × (s.stream.seq < 2 ^ 16)

commit_packet-Sized : (pkt : Bytes) (s : Sender) → Sized s → Sized (commit_packet pkt s)
unfolding commit_packet
commit_packet-Sized pkt s (b, q, l) = (
  length-set s.stream.backlog (bit_and s.stream.seq 1023) pkt ∙ b,
  length-set s.stream.backlog_seq (bit_and s.stream.seq 1023) (some s.stream.seq) ∙ q,
  omega arith,
)

commit_packet-Stored :
    (pkt : Bytes) (s : Sender) → Sized s → Stored s.stream.seq pkt (commit_packet pkt s)
unfolding commit_packet
commit_packet-Stored pkt s (b, q, l) = rw (bit_and_mask 10 s.stream.seq) (
  get_or-set s.stream.backlog_seq (s.stream.seq % 1024) (some s.stream.seq) none (omega arith),
  get_or-set s.stream.backlog (s.stream.seq % 1024) pkt [] (omega arith),
)

-- Another packet takes another slot, unless it is 1024 further on.
commit_packet-keeps :
    (q : ℕ) (old pkt : Bytes) (s : Sender)
    → s.stream.seq % 1024 ≢ q % 1024
    → Stored q old s
    → Stored q old (commit_packet pkt s)
unfolding commit_packet
commit_packet-keeps q old pkt s other (e, f) = rw (bit_and_mask 10 s.stream.seq) (
  get_or-set_other s.stream.backlog_seq (s.stream.seq % 1024) (q % 1024) (some s.stream.seq) none
        other
      ∙ e,
  get_or-set_other s.stream.backlog (s.stream.seq % 1024) (q % 1024) pkt [] other ∙ f,
)

-- After `k` more packets, of fewer than 1024.
commit_all-keeps :
    (q k : ℕ) (old : Bytes) (pkts : List Bytes) (s : Sender)
    → q < 2 ^ 16
    → s.stream.seq ≡ (q + suc k) % 2 ^ 16
    → k + length pkts < 1023 + 1
    → Stored q old s
    → Stored q old (commit_all pkts s)
unfolding commit_all
commit_all-keeps q k old [] s hq e h st = st
commit_all-keeps q k old (pkt ∷ pkts) s hq e h st =
    commit_all-keeps q (suc k) old pkts (commit_packet pkt s) hq (omega arith) (omega arith)
      (commit_packet-keeps q old pkt s (λ c. omega arith) st)

resend-Stored :
    (from : RaopEndpoint) (q : ℕ) (pkt : Bytes) (s : Sender)
    → Stored q pkt s
    → resend from q s
      ≡ emit (udp_send RaopUdp.control from (0x80 ∷ (0xD6 ∷ (be_bytes 2 q ++ pkt)))) s
unfolding resend
resend-Stored from q pkt s (e, f) = rw (bit_and_mask 10 q) (rw (e, f, holds, ==_self q) refl)

-- A packet that went out, with fewer than 1024 others after it, is sent again on request: the four
-- bytes of the answer's header with its sequence number, and the packet as it was. The sequence
-- numbers may have wrapped in between.
pub resend-commit_all :
    (from : RaopEndpoint) (pkt : Bytes) (later : List Bytes) (s : Sender)
    → Sized s
    → length later < 1024
    → resend from s.stream.seq (commit_all (pkt ∷ later) s)
      ≡ emit
          (udp_send RaopUdp.control from (0x80 ∷ (0xD6 ∷ (be_bytes 2 s.stream.seq ++ pkt))))
          (commit_all (pkt ∷ later) s)
unfolding commit_all
resend-commit_all from pkt later s sized few =
    resend-Stored from s.stream.seq pkt (commit_all (pkt ∷ later) s) (
      commit_all-keeps s.stream.seq 0 pkt later (commit_packet pkt s) sized.2 (omega arith)
        (omega arith) (commit_packet-Stored pkt s sized))
