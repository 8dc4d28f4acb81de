-- ===== src/Sender/Alac/Layout.antt =====
-- The layout of the frames of `encodeAlacFrame_` of src/raop_sender.cpp, bit by bit.
use airplay2_sender_cpp.Base.{
  false, ap₂, ==_iff, subst, ℕ, zero, suc, ◌+◌, ◌-◌, ◌*◌, ◌/◌, ◌%◌, ◌^◌, ◌<◌, ◌≡◌, refl, ap, sym,
  ◌∙◌, List, [], ◌∷◌, ◌++◌, arith, length, replicate, append_assoc, append-nil, ◌==◌,
}
use airplay2_sender_cpp.Base.{lt→ltb, length-append, if-split}
use airplay2_sender_cpp.Sender.Alac.{
  Packer, put_bit, put, put_samples, flush, put_head, encode_alac_frame,
}
use airplay2_sender_cpp.Sender.Alac.BitLists.{
  bits, bits_of, sample_bits, bits_of-append, full_byte, part_byte, last_byte, length-bits,
  length-bits_of, length-sample_bits,
}

-- The bits that have been put so far.
unfoldable written : Packer → List ℕ
unfolding bits bits_of
written p = bits_of p.out ++ bits p.filled p.cur

abbrev Fits : Packer → Type 0
Fits p = (p.filled < 8) × (p.cur < 2 ^ p.filled)

-- What a step has written, if it has written `new` behind what was there.
abbrev Writes : List ℕ → Packer → Packer → Type 0
Writes new p q = (written q ≡ written p ++ new) × Fits q

put_bit-Writes : (bit : ℕ) (p : Packer) → bit < 2 → Fits p → Writes (bit ∷ []) p (put_bit bit p)
unfolding put_bit written bits_of
put_bit-Writes bit p h (f, c) =
    if-split (Writes (bit ∷ []) p) (p.filled + 1 == 8) _ _
      (λ e.
        let whole : p.filled ≡ 7 = omega (arith, (==_iff (p.filled + 1) 8).0 e) in
        (
          append-nil (bits_of (p.out ++ (p.cur * 2 + bit) % 256 ∷ []))
              ∙ (full_byte p.out p.cur bit h (subst (λ t. p.cur < 2 ^ t) whole c)
                  ∙ ap (λ n. (bits_of p.out ++ bits n p.cur) ++ bit ∷ []) (sym whole)),
          (omega arith, omega arith),
        ))
      (λ e.
        let less : p.filled < 7 = more p e f in
        let (b, small) = part_byte p.filled p.cur bit h less c in
        (
          ap (λ t. bits_of p.out ++ t) b
              ∙ sym (append_assoc (bits_of p.out) (bits p.filled p.cur) (bit ∷ [])),
          (omega arith, small),
        ))
  where
    more : (p : Packer) → (p.filled + 1 == 8) ≡ false → p.filled < 8 → p.filled < 7
    more p e f = ground arith

Writes-then :
    (xs ys : List ℕ) (p q r : Packer) → Writes xs p q → Writes ys q r → Writes (xs ++ ys) p r
Writes-then xs ys p q r (a, f) (b, g) =
    (b ∙ (ap (λ t. t ++ ys) a ∙ append_assoc (written p) xs ys), g)

put-Writes : (n value : ℕ) (p : Packer) → Fits p → Writes (bits n value) p (put value n p)
unfolding put bits
put-Writes zero value p f = (sym (append-nil (written p)), f)
put-Writes (suc n) value p f =
    let first = put_bit-Writes ((value / 2 ^ n) % 2) p (omega arith) f in
    Writes-then (((value / 2 ^ n) % 2) ∷ []) (bits n value) p _ _ first
      (put-Writes n value (put_bit ((value / 2 ^ n) % 2) p) first.1)

put_samples-Writes :
    (xs : List ℕ) (p : Packer) → Fits p → Writes (sample_bits xs) p (put_samples xs p)
unfolding put_samples sample_bits
put_samples-Writes [] p f = (sym (append-nil (written p)), f)
put_samples-Writes (x ∷ xs) p f =
    let first = put-Writes 16 (x % 2 ^ 16) p f in
    Writes-then (bits 16 (x % 2 ^ 16)) (sample_bits xs) p _ _ first
      (put_samples-Writes xs (put (x % 2 ^ 16) 16 p) first.1)

flush-bits :
    (p : Packer)
    → Fits p
    → 0 < p.filled
    → bits_of (flush p) ≡ written p ++ replicate (8 - p.filled) 0
unfolding flush written bits_of
flush-bits p (f, c) pos = rw (lt→ltb 0 p.filled pos) (
    bits_of-append p.out ((p.cur * 2 ^ (8 - p.filled) % 256) ∷ [])
    ∙ (ap (λ t. bits_of p.out ++ t)
          (append-nil (bits 8 (p.cur * 2 ^ (8 - p.filled) % 256)) ∙ last_byte p.filled p.cur f c)
        ∙ sym (append_assoc (bits_of p.out) (bits p.filled p.cur) (replicate (8 - p.filled) 0))))

-- How many bits stand in the byte under way.
filled_of_length : (p : Packer) → p.filled < 8 → length (written p) ≡ 8 * length p.out + p.filled
unfolding written
filled_of_length p f = omega (
  arith,
  length-append (bits_of p.out) (bits p.filled p.cur),
  length-bits p.filled p.cur,
  length-bits_of p.out,
)

-- The stereo element, unused bits, no size, no wasted bytes, and the flag for an uncompressed
-- frame.
abbrev pub head_bits : List ℕ
head_bits = 0 ∷ (0 ∷ (1 ∷ (replicate 19 0 ++ 1 ∷ [])))

start : Packer
start = record { out = []; cur = 0; filled = 0 }

put_head-Writes : Writes head_bits start (put_head start)
unfolding put_head start bits written bits_of
put_head-Writes = (refl, (omega arith, omega arith))

abbrev body_bits : List ℕ → List ℕ
body_bits xs = (head_bits ++ sample_bits xs) ++ bits 3 7

packed : List ℕ → Packer
packed xs = put 7 3 (put_samples xs (put_head start))

packed-Writes : (xs : List ℕ) → Writes (body_bits xs) start (packed xs)
unfolding packed
packed-Writes xs =
    let h = put_head-Writes in
    let m = put_samples-Writes xs (put_head start) h.1 in
    let hm = Writes-then head_bits (sample_bits xs) start _ _ h m in
    Writes-then (head_bits ++ sample_bits xs) (bits 3 7) start _ _ hm
      (put-Writes 3 7 (put_samples xs (put_head start)) m.1)

packed-filled : (xs : List ℕ) → (packed xs).filled ≡ 2
unfolding start written
packed-filled xs =
    let w = packed-Writes xs in
    omega (
      arith,
      w.1.0,
      filled_of_length (packed xs) w.1.0,
      ap length w.0,
      length-append (head_bits ++ sample_bits xs) (bits 3 7),
      length-append head_bits (sample_bits xs),
      length-sample_bits xs,
      length-bits 3 7,
    )

-- A frame, read bit by bit from the highest bit of each byte on, is the head, sixteen bits of each
-- sample, the end tag of three ones, and six zeros; and it has two bytes for each sample and four
-- more.
pub encode_alac_frame-bits :
    (xs : List ℕ)
    → (bits_of (encode_alac_frame xs)
        ≡ ((head_bits ++ sample_bits xs) ++ bits 3 7) ++ replicate 6 0)
      × (length (encode_alac_frame xs) ≡ 2 * length xs + 4)
unfolding encode_alac_frame packed start written
encode_alac_frame-bits xs = (
  whole,
  omega (arith, length-whole, length-bits_of (encode_alac_frame xs), length-sample_bits xs),
)
  where
    whole :
        bits_of (encode_alac_frame xs)
        ≡ ((head_bits ++ sample_bits xs) ++ bits 3 7) ++ replicate 6 0
    whole =
        flush-bits (packed xs) (packed-Writes xs).1 (omega (arith, packed-filled xs))
        ∙ ap₂ ◌++◌ (packed-Writes xs).0 (ap (λ n. replicate (8 - n) 0) (packed-filled xs))

    length-whole : length (bits_of (encode_alac_frame xs)) ≡ 23 + length (sample_bits xs) + 3 + 6
    length-whole =
        ap length whole
        ∙ (length-append ((head_bits ++ sample_bits xs) ++ bits 3 7) (replicate 6 0)
            ∙ ap (λ n. n + 6)
                (length-append (head_bits ++ sample_bits xs) (bits 3 7)
                  ∙ ap (λ n. n + 3) (length-append head_bits (sample_bits xs))))
