-- ===== src/Sender/Resample/Between.antt =====
-- What the resampler of src/raop_sender.cpp makes lies between the samples that it is made of.
use airplay2_sender_cpp.Base.{
  true, false, inl, inr, ◌⊎◌, Bool-cases, if-both, if◌then◌else◌, ℕ, ◌+◌, ◌-◌, ◌*◌, ◌%◌, ◌^◌, ◌≤◌,
  ◌<◌, ◌≡◌, refl, ap, ◌∙◌, arith, ltb, ltb→lt, lt→ltb, le→ltb, ltb_false→le,
}
use airplay2_sender_cpp.Doubles
use airplay2_sender_cpp.Doubles.{Double, scale}
use airplay2_sender_cpp.Doubles.Arithmetic.{signed, mul-part, add-same, Opposed, add-Opposed}
use airplay2_sender_cpp.Sender.Resample.{level, of_sample, difference, to_sample, lerp}

-- The level of a whole number with a sign.
above : (t : ℕ) → t < 2 ^ 15 → level (t % 2 ^ 16) ≡ 2 ^ 15 + t
above t h = omega arith

below : (t : ℕ) → t ≤ 2 ^ 15 → level ((2 ^ 16 - t % 2 ^ 16) % 2 ^ 16) ≡ 2 ^ 15 - t
below t h = omega arith

level-above :
    (r : Double)
    → r.negative ≡ false
    → Doubles.trunc r < 2 ^ 15
    → level (to_sample r) ≡ 2 ^ 15 + Doubles.trunc r
unfolding to_sample
level-above r e h =
    ap
      (λ b.
        level
          (if b then (2 ^ 16 - Doubles.trunc r % 2 ^ 16) % 2 ^ 16 else Doubles.trunc r % 2 ^ 16))
      e
    ∙ above (Doubles.trunc r) h

level-below :
    (r : Double)
    → r.negative ≡ true
    → Doubles.trunc r ≤ 2 ^ 15
    → level (to_sample r) ≡ 2 ^ 15 - Doubles.trunc r
unfolding to_sample
level-below r e h =
    ap
      (λ b.
        level
          (if b then (2 ^ 16 - Doubles.trunc r % 2 ^ 16) % 2 ^ 16 else Doubles.trunc r % 2 ^ 16))
      e
    ∙ below (Doubles.trunc r) h

level-zero : (r : Double) → Doubles.trunc r ≡ 0 → level (to_sample r) ≡ 2 ^ 15
unfolding to_sample
level-zero r h = rw h (if-both (λ (x : ℕ). (x + 2 ^ 15) % 2 ^ 16 ≡ 2 ^ 15) r.negative 0 0 refl refl)

-- `x` lies between `a` and `b`, in either order.
abbrev pub Between : ℕ → ℕ → ℕ → Type 0
Between a b x = ((a ≤ x) × (x ≤ b)) ⊎ ((b ≤ x) × (x ≤ a))

-- From a sample of 0 or more towards one that is `k` higher.
up_from_above :
    (m k p : ℕ)
    → m + k < 2 ^ 15
    → p ≤ k * scale
    → (2 ^ 15 + m ≤ level (to_sample (Doubles.add (Doubles.of_int false m) (signed false p))))
      × (level (to_sample (Doubles.add (Doubles.of_int false m) (signed false p))) ≤ 2 ^ 15 + m + k)
up_from_above m k p h le =
    let r = Doubles.add (Doubles.of_int false m) (signed false p) in
    let (sign, low, high) = add-same false m k p (omega arith) le in
    let at = level-above r sign (omega (arith, h, high)) in
    (omega (arith, at, low), omega (arith, at, high))

-- From a sample below 0 towards one that is `k` lower.
down_from_below :
    (m k p : ℕ)
    → m + k ≤ 2 ^ 15
    → p ≤ k * scale
    → (level (to_sample (Doubles.add (Doubles.of_int true m) (signed true p))) ≤ 2 ^ 15 - m)
      × (2 ^ 15 - m - k ≤ level (to_sample (Doubles.add (Doubles.of_int true m) (signed true p))))
down_from_below m k p h le =
    let r = Doubles.add (Doubles.of_int true m) (signed true p) in
    let (sign, low, high) = add-same true m k p (omega arith) le in
    let at = level-below r sign (omega (arith, h, high)) in
    (omega (arith, at, low), omega (arith, at, high))

-- From a sample of 0 or more towards one that is `k` lower.
down_from_above :
    (m k : ℕ) (r : Double)
    → m < 2 ^ 15
    → k ≤ m + 2 ^ 15
    → Opposed false m k r
    → (level (to_sample r) ≤ 2 ^ 15 + m) × (2 ^ 15 + m - k ≤ level (to_sample r))
down_from_above m k r h hk (inl (sign, past)) =
    let at = level-below r sign (omega (arith, past)) in
    (omega (arith, at), omega (arith, at, past))
down_from_above m k r h hk (inr (inl sign, low, high)) =
    let at = level-above r sign (omega (arith, low)) in
    (omega (arith, at, low), omega (arith, at, high))
down_from_above m k r h hk (inr (inr none, low, high)) =
    let at = level-zero r none in (omega (arith, at), omega (arith, at, none, high))

-- From a sample below 0 towards one that is `k` higher.
up_from_below :
    (m k : ℕ) (r : Double)
    → m ≤ 2 ^ 15
    → k < m + 2 ^ 15
    → Opposed true m k r
    → (2 ^ 15 - m ≤ level (to_sample r)) × (level (to_sample r) ≤ 2 ^ 15 - m + k)
up_from_below m k r h hk (inl (sign, past)) =
    let at = level-above r sign (omega (arith, past)) in
    (omega (arith, at), omega (arith, at, past))
up_from_below m k r h hk (inr (inl sign, low, high)) =
    let at = level-below r sign (omega (arith, low)) in
    (omega (arith, at, low), omega (arith, at, high))
up_from_below m k r h hk (inr (inr none, low, high)) =
    let at = level-zero r none in (omega (arith, at), omega (arith, at, none, high))

of_sample-up : (a : ℕ) → a < 2 ^ 15 → of_sample a ≡ Doubles.of_int false a
unfolding of_sample
of_sample-up a h = rw (lt→ltb a (2 ^ 15) h) refl

of_sample-down : (a : ℕ) → 2 ^ 15 ≤ a → of_sample a ≡ Doubles.of_int true (2 ^ 16 - a)
unfolding of_sample
of_sample-down a h = rw (le→ltb a (2 ^ 15) h) refl

difference-up :
    (a b : ℕ) → level a ≤ level b → difference a b ≡ Doubles.of_int false (level b - level a)
unfolding difference
difference-up a b h = rw (le→ltb (level b) (level a) h) refl

difference-down :
    (a b : ℕ) → level b < level a → difference a b ≡ Doubles.of_int true (level a - level b)
unfolding difference
difference-down a b h = rw (lt→ltb (level b) (level a) h) refl

-- A step of the loop between two samples of 16 bits, for a fraction of at most one.
abbrev pub IsFraction : Double → Type 0
IsFraction f = (f.negative ≡ false) × (f.units ≤ scale)

-- The levels of two samples of 16 bits with the sign of the first.
level_up : (a : ℕ) → a < 2 ^ 15 → level a ≡ 2 ^ 15 + a
level_up a h = omega arith

level_down : (a : ℕ) → a < 2 ^ 16 → 2 ^ 15 ≤ a → level a ≡ 2 ^ 15 - (2 ^ 16 - a)
level_down a h l = omega arith

upwards :
    (a b : ℕ) (f : Double)
    → a < 2 ^ 16
    → IsFraction f
    → level a ≤ level b
    → (level a ≤ level (lerp a b f)) × (level (lerp a b f) ≤ level b)
unfolding lerp
upwards a b f ha (sign, part) h =
    let k = level b - level a in
    let (p, le, product) = mul-part false k f (omega arith) sign part in
    let step : Doubles.mul (difference a b) f ≡ signed false p =
      ap (λ (d : Double). Doubles.mul d f) (difference-up a b h) ∙ product in
    elim (Bool-cases (ltb a (2 ^ 15))) [
      | inl e ↦
          let l = ltb→lt a (2 ^ 15) e in
          let at = level_up a l in
          let (low, high) = up_from_above a k p (omega (arith, at)) le in
          rw (step, of_sample-up a l) (omega (arith, at, low), omega (arith, at, high, h))
      | inr e ↦
          let l = ltb_false→le a (2 ^ 15) e in
          let at = level_down a ha l in
          let m = 2 ^ 16 - a in
          let (low, high) =
            up_from_below m k _ (omega arith) (omega (arith, at))
              (add-Opposed true m k p (omega arith) (omega arith) le) in
          rw (step, of_sample-down a l) (omega (arith, at, low), omega (arith, at, high, h))
    ]

downwards :
    (a b : ℕ) (f : Double)
    → a < 2 ^ 16
    → IsFraction f
    → level b < level a
    → (level b ≤ level (lerp a b f)) × (level (lerp a b f) ≤ level a)
unfolding lerp
downwards a b f ha (sign, part) h =
    let k = level a - level b in
    let (p, le, product) = mul-part true k f (omega arith) sign part in
    let step : Doubles.mul (difference a b) f ≡ signed true p =
      ap (λ (d : Double). Doubles.mul d f) (difference-down a b h) ∙ product in
    elim (Bool-cases (ltb a (2 ^ 15))) [
      | inl e ↦
          let l = ltb→lt a (2 ^ 15) e in
          let at = level_up a l in
          let (high, low) =
            down_from_above a k _ l (omega (arith, at))
              (add-Opposed false a k p (omega arith) (omega arith) le) in
          rw (step, of_sample-up a l) (omega (arith, at, low, h), omega (arith, at, high))
      | inr e ↦
          let l = ltb_false→le a (2 ^ 15) e in
          let at = level_down a ha l in
          let m = 2 ^ 16 - a in
          let (high, low) = down_from_below m k p (omega (arith, at)) le in
          rw (step, of_sample-down a l) (omega (arith, at, low, h), omega (arith, at, high))
    ]

pub lerp-Between :
    (a b : ℕ) (f : Double)
    → a < 2 ^ 16
    → IsFraction f
    → Between (level a) (level b) (level (lerp a b f))
lerp-Between a b f ha i = elim (Bool-cases (ltb (level b) (level a))) [
  | inl e ↦ inr (downwards a b f ha i (ltb→lt (level b) (level a) e))
  | inr e ↦ inl (upwards a b f ha i (ltb_false→le (level b) (level a) e))
]
