-- ===== src/Doubles/Limits.antt =====
-- Upper limits for operations of a double with a whole number.
use native.Mathlib.Nat.{mul_assoc, mul_right_comm, mul-one, mul-le-mul_right, mul-pos}
use airplay2_sender_cpp.Base.{
  Bool, true, false, inl, inr, ◌⊎◌, if-split, ◌⊎◌, ℕ, ◌+◌, ◌-◌, ◌*◌, ◌^◌, ◌≤◌, ◌<◌, ◌≡◌, refl, ap,
  sym, subst, ◌∙◌, arith, ltb, ltb_false→le,
}
use airplay2_sender_cpp.Doubles.{
  Double, scale, fit, of_int, of_nat, negate, same_sign, add, sub, mul, div, less,
}
use airplay2_sender_cpp.Doubles.Rounding.{fit-le, scale-pos}
use airplay2_sender_cpp.Doubles.Arithmetic.{signed, of_int-whole, product_sign}

-- The magnitude is at most the whole number `k`.
abbrev pub AtMost : ℕ → Double → Type 0
AtMost k x = x.units ≤ k * scale

-- No sign, or nothing that it would apply to; and the same for a sign.
abbrev pub NotBelow : Double → Type 0
NotBelow x = (x.negative ≡ false) ⊎ (x.units ≡ 0)

abbrev pub NotAbove : Double → Type 0
NotAbove x = (x.negative ≡ true) ⊎ (x.units ≡ 0)

regroup : (hi k : ℕ) → hi * scale * (k * scale) ≡ hi * k * scale * scale
regroup hi k =
    sym (mul_assoc (hi * scale) k scale) ∙ ap (λ t. t * scale) (mul_right_comm hi scale k)

pub of_nat-whole : (k : ℕ) → k < 2 ^ 53 → of_nat k ≡ signed false (k * scale)
unfolding of_nat
of_nat-whole k h = of_int-whole false k h

product-le : (u hi k : ℕ) → u ≤ hi * scale → u * (k * scale) ≤ hi * k * scale * scale
product-le u hi k h =
    subst (λ t. u * (k * scale) ≤ t) (regroup hi k) (mul-le-mul_right (k * scale) h)

pub mul-AtMost :
    (x : Double) (hi k : ℕ)
    → k < 2 ^ 53
    → hi * k < 2 ^ 53
    → AtMost hi x
    → AtMost (hi * k) (mul x (of_nat k))
unfolding mul
mul-AtMost x hi k hk h le =
    subst (λ d. AtMost (hi * k) (mul x d)) (sym (of_nat-whole k hk))
      (fit-le (hi * k) (x.units * (k * scale)) scale scale-pos h (product-le x.units hi k le))

pub mul-sign : (x : Double) (k : ℕ) → (mul x (of_nat k)).negative ≡ x.negative
unfolding mul of_nat of_int
mul-sign x k = product_sign x.negative

quotient-le : (u hi k : ℕ) → u ≤ hi * k * scale → u * scale ≤ hi * scale * (k * scale)
quotient-le u hi k h = subst (λ t. u * scale ≤ t) (sym (regroup hi k)) (mul-le-mul_right scale h)

pub div-AtMost :
    (x : Double) (hi k : ℕ)
    → 0 < k
    → k < 2 ^ 53
    → hi < 2 ^ 53
    → AtMost (hi * k) x
    → AtMost hi (div x (of_nat k))
unfolding div
div-AtMost x hi k p hk h le =
    subst (λ d. AtMost hi (div x d)) (sym (of_nat-whole k hk))
      (fit-le hi (x.units * scale) (k * scale) (mul-pos p scale-pos) h
        (quotient-le x.units hi k le))

pub div-sign : (x : Double) (k : ℕ) → (div x (of_nat k)).negative ≡ x.negative
unfolding div of_nat of_int
div-sign x k = product_sign x.negative

fit-AtMost : (n k : ℕ) → k < 2 ^ 53 → n ≤ k * scale → fit n 1 ≤ k * scale
fit-AtMost n k hk h =
    fit-le k n 1 (omega arith) hk (subst (λ t. n ≤ t) (sym (mul-one (k * scale))) h)

fit-zero : (n : ℕ) → n ≡ 0 → fit n 1 ≡ 0
fit-zero n h = omega (arith, fit-AtMost n 0 (omega arith) (omega (arith, h)))

rest_below : (u w : ℕ) → w - u ≤ w
rest_below u w = omega arith

no_rest : (u w : ℕ) → u ≤ w → w ≤ u → u - w ≡ 0
no_rest u w h l = omega arith

zero_below : (n w : ℕ) → n ≡ 0 → n ≤ w
zero_below n w h = omega arith

plus_nothing : (u w : ℕ) → u ≡ 0 → u + w ≤ w
plus_nothing u w h = omega arith

Capped : ℕ → Double → Type 0
Capped k x = AtMost k x × NotAbove x

sub-Capped :
    (g : Bool) (u k : ℕ)
    → k < 2 ^ 53
    → NotBelow (signed g u)
    → u ≤ k * scale
    → Capped k (sub (signed g u) (signed false (k * scale)))
unfolding sub add negate same_sign Capped
sub-Capped false u k hk below le =
    if-split (Capped k) (ltb u (k * scale)) _ _
      (λ e. (fit-AtMost (k * scale - u) k hk (rest_below u (k * scale)), inl refl))
      (λ e.
        let gone =
          fit-zero (u - k * scale) (no_rest u (k * scale) le (ltb_false→le u (k * scale) e)) in
        (zero_below _ (k * scale) gone, inr gone))
sub-Capped true u k hk (inl e) le = cc
sub-Capped true u k hk (inr none) le =
    (fit-AtMost (u + k * scale) k hk (plus_nothing u (k * scale) none), inl refl)

-- A number of at most `k` that is not below zero, less `k`.
pub sub-AtMost :
    (x : Double) (k : ℕ)
    → k < 2 ^ 53
    → NotBelow x
    → AtMost k x
    → AtMost k (sub x (of_nat k)) × NotAbove (sub x (of_nat k))
unfolding Capped
sub-AtMost x k hk below le =
    subst (λ d. Capped k (sub x d)) (sym (of_nat-whole k hk))
      (sub-Capped x.negative x.units k hk below le)

-- Nothing is left when nothing is divided.
pub div-zero :
    (x : Double) (k : ℕ) → 0 < k → k < 2 ^ 53 → x.units ≡ 0 → (div x (of_nat k)).units ≡ 0
div-zero x k p hk h = omega (arith, div-AtMost x 0 k p hk (omega arith) (omega (arith, h)))

pub mul-zero : (x : Double) (k : ℕ) → k < 2 ^ 53 → x.units ≡ 0 → (mul x (of_nat k)).units ≡ 0
mul-zero x k hk h = omega (arith, mul-AtMost x 0 k hk (omega arith) (omega (arith, h)))

signed-NotBelow :
    (g : Bool) (u w : ℕ) → less (signed g u) (signed false w) ≡ false → NotBelow (signed g u)
unfolding less
signed-NotBelow false u w h = inl refl
signed-NotBelow true u w h = inr (ground arith)

-- What is not less than zero, and what is not more than `k`.
pub less-NotBelow : (x : Double) → less x (of_nat 0) ≡ false → NotBelow x
less-NotBelow x h =
    signed-NotBelow x.negative x.units (0 * scale)
      (subst (λ d. less x d ≡ false) (of_nat-whole 0 (omega arith)) h)

signed-AtMost :
    (g : Bool) (u k : ℕ)
    → less (signed false (k * scale)) (signed g u) ≡ false
    → NotBelow (signed g u)
    → u ≤ k * scale
unfolding less
signed-AtMost false u k h below = ltb_false→le (k * scale) u h
signed-AtMost true u k h (inl e) = cc
signed-AtMost true u k h (inr none) = zero_below u (k * scale) none

pub less-AtMost :
    (x : Double) (k : ℕ) → k < 2 ^ 53 → less (of_nat k) x ≡ false → NotBelow x → AtMost k x
less-AtMost x k hk h below =
    signed-AtMost x.negative x.units k (subst (λ d. less d x ≡ false) (of_nat-whole k hk) h) below

pub of_nat-AtMost : (n k : ℕ) → n ≤ k → k < 2 ^ 53 → NotBelow (of_nat n) × AtMost k (of_nat n)
of_nat-AtMost n k h hk =
    subst (λ d. NotBelow d × AtMost k d) (sym (of_nat-whole n (omega arith)))
      (inl refl, mul-le-mul_right scale h)
