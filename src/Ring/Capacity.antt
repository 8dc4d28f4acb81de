-- ===== src/Ring/Capacity.antt =====
-- `nextPow2` and the constructor of src/ring_buffer.h.
use native.Mathlib.Nat.{
  div-le_self, div-div-eq-div-mul, div-eq_of_lt-le, pow-le-pow_right, pow-succ',
}
use native.Mathlib.Decide.{dec_lt}
use airplay2_sender_cpp.Base.{
  ℕ, zero, suc, ◌+◌, ◌-◌, ◌/◌, ◌%◌, ◌^◌, ◌≤◌, ◌<◌, ◌≡◌, refl, ap, sym, ◌∙◌, ◌⊎◌, inl, inr, arith,
  bit, bit-bit_or, bit_or-lt, all_ones, pow_add, pow_pos, length-replicate, [],
}
use airplay2_sender_cpp.Ring.{available_write, size_sub, size_mod, smear, next_pow2, create}
use airplay2_sender_cpp.Ring.Contents.{capacity-pow, IsValid, contents, pow_le_word}

-- `v` has `w` bits, of which the `m` highest are set.
abbrev TopOnes : ℕ → ℕ → ℕ → Type 0
TopOnes w m v = (v < 2 ^ w) × ((i : ℕ) → i < w → w ≤ i + m → bit v i ≡ 1)

bit-shift : (v m i : ℕ) → bit (v / 2 ^ m) i ≡ bit v (m + i)
bit-shift v m i =
    ap (λ t. t % 2) (div-div-eq-div-mul v (2 ^ m) (2 ^ i) ∙ ap (◌/◌ v) (sym (pow_add 2 m i)))

bit-le-one : (v i : ℕ) → bit v i ≤ 1
bit-le-one v i = omega arith

-- One `v |= v >> m` doubles the run of set bits.
smear-TopOnes : (w m v : ℕ) → TopOnes w m v → TopOnes w (m + m) (smear m v)
unfolding smear
smear-TopOnes w m v (h, b) = (
  bit_or-lt w v (v / 2 ^ m) h (omega (arith, div-le_self v (2 ^ m))),
  λ i hi top. elim (dec_lt (i + m) w) [
    | yes low ↦ omega (
      arith,
      bit-bit_or v (v / 2 ^ m) i,
      bit-shift v m i,
      b (m + i) (omega arith) (omega arith),
      bit-le-one v i,
    )
    | no high ↦
        omega (arith, bit-bit_or v (v / 2 ^ m) i, b i hi (omega arith), bit-le-one (v / 2 ^ m) i)
  ],
)

-- The number of bits of `x`.
width : (n x : ℕ) → x < 2 ^ n → (w : ℕ) × (w ≤ n) × (x < 2 ^ w) × ((w ≡ 0) ⊎ (2 ^ (w - 1) ≤ x))
width zero x h = (0, omega arith, h, inl refl)
width (suc n) x h = elim (dec_lt x (2 ^ n)) [
  | yes lt ↦ let (w, a, b, c) = width n x lt in (w, omega arith, b, c)
  | no ge ↦
      (suc n, omega arith, h, inr (rw (let e : suc n - 1 ≡ n = omega arith in e) (omega arith)))
]

width-TopOnes : (w x : ℕ) → x < 2 ^ w → (w ≡ 0) ⊎ (2 ^ (w - 1) ≤ x) → TopOnes w 1 x
width-TopOnes w x h c = (h, λ i hi top. go i hi top c)
  where
    go : (i : ℕ) → i < w → w ≤ i + 1 → (w ≡ 0) ⊎ (2 ^ (w - 1) ≤ x) → bit x i ≡ 1
    go i hi top (inl e) = absurd (omega arith)
    go i hi top (inr ge) =
        ap (λ t. t % 2)
          (div-eq_of_lt-le {k = 1} (2 ^ i) (rw (let e : i ≡ w - 1 = omega arith in e) (omega arith))
            (omega (arith, pow-succ' 2 i, ap (◌^◌ 2) (let e : w ≡ suc i = omega arith in e))))

-- The six shifts fill every bit of a number of at most 64.
smears_fill :
    (w x : ℕ)
    → w ≤ 64
    → TopOnes w 1 x
    → smear 32 (smear 16 (smear 8 (smear 4 (smear 2 (smear 1 x))))) ≡ 2 ^ w - 1
smears_fill w x hw t = all_ones w _ filled.0 (λ i hi. filled.1 i hi (omega arith))
  where
    filled : TopOnes w 64 (smear 32 (smear 16 (smear 8 (smear 4 (smear 2 (smear 1 x))))))
    filled = smear-TopOnes w 32 _ (
        smear-TopOnes w 16 _
          (smear-TopOnes w 8 _ (smear-TopOnes w 4 _ (smear-TopOnes w 2 _ (smear-TopOnes w 1 x t)))))

pub Least : ℕ → ℕ → Type 0
Least v k = (next_pow2 v ≡ 2 ^ k) × (v ≤ 2 ^ k) × ((j : ℕ) → v ≤ 2 ^ j → k ≤ j)

next_pow2_of_width :
    (v w : ℕ)
    → 0 < v
    → w ≤ 63
    → v - 1 < 2 ^ w
    → (w ≡ 0) ⊎ (2 ^ (w - 1) ≤ v - 1)
    → v < size_mod
    → Least v w
unfolding next_pow2 Least
next_pow2_of_width v w pos hw h c small = (power, omega arith, λ j hj. least j hj (dec_lt j w))
  where
    power : next_pow2 v ≡ 2 ^ w
    power =
        rw
          (
            let e : size_sub v 1 ≡ v - 1 = omega arith in e,
            smears_fill w (v - 1) (omega arith) (width-TopOnes w (v - 1) h c),
          )
          (omega (arith, pow_le_word w (omega arith), pow_pos w))

    least : (j : ℕ) → v ≤ 2 ^ j → Dec (j < w) → w ≤ j
    least j hj (no ge) = omega arith
    least j hj (yes lt) =
        omega (arith, pow-le-pow_right {n = 2} (omega arith) {i = j} {j = w - 1} (omega arith), c)

-- For a size from 1 to `2 ^ 63`, `nextPow2` is the least power of two that is not below it.
pub next_pow2-Least : (v : ℕ) → 0 < v → v ≤ 2 ^ 63 → (k : ℕ) × (k ≤ 63) × Least v k
next_pow2-Least v pos small =
    let (w, hw, h, c) = width 63 (v - 1) (omega arith) in
    (w, hw, next_pow2_of_width v w pos hw h c (omega arith))

create_of_Least :
    {A : Type 0} (blank : A) (v k : ℕ)
    → k ≤ 63
    → Least v k
    → (k : ℕ) × IsValid k (create blank v)
      × (contents blank k (create blank v) ≡ [])
      × (v ≤ 2 ^ k)
      × (available_write (create blank v) ≡ 2 ^ k)
unfolding create available_write Least
create_of_Least blank v k hk (e, above, _) = (
  k,
  valid,
  refl,
  above,
  omega (arith, capacity-pow k (create blank v) valid, pow_le_word k (omega arith)),
)
  where
    mask : size_sub (next_pow2 v) 1 ≡ 2 ^ k - 1
    mask = omega (arith, pow_le_word k (omega arith), pow_pos k)

    valid : IsValid k (create blank v)
    valid = record {
      small = omega arith;
      mask_eq = mask;
      storage =
          length-replicate _ blank ∙ omega (arith, mask, pow_le_word k (omega arith), pow_pos k);
      read_in = omega arith;
      write_in = omega arith;
      held = omega arith;
    }

-- A ring built for a size from 1 to `2 ^ 63` is valid and empty, and has room for that size.
pub create-IsValid :
    {A : Type 0} (blank : A) (v : ℕ)
    → 0 < v
    → v ≤ 2 ^ 63
    → (k : ℕ) × IsValid k (create blank v)
      × (contents blank k (create blank v) ≡ [])
      × (v ≤ 2 ^ k)
      × (available_write (create blank v) ≡ 2 ^ k)
create-IsValid blank v pos small =
    let (k, hk, least) = next_pow2-Least v pos small in create_of_Least blank v k hk least
