-- ===== src/Doubles/Arithmetic.antt =====
-- Bounds for sums and products of doubles with whole numbers.
use native.Mathlib.Nat.{mul_comm, mul-one, mul-sub, add-mul, lt_of_mul-lt-mul_right}
use airplay2_sender_cpp.Base.{
  Bool, true, false, not, ◌&&◌, ◌==◌, ==_iff, inl, inr, ◌⊎◌, if-split, ℕ, ◌+◌, ◌-◌, ◌*◌, ◌/◌, ◌^◌,
  ◌≤◌, ◌<◌, ◌≡◌, refl, ap, sym, subst, ◌∙◌, arith, ap₂, ltb, ltb→lt, ltb_false→le, le→ltb,
}
use airplay2_sender_cpp.Doubles.{
  Double, scale, fit, of_int, of_nat, negate, same_sign, add, sub, mul, trunc,
}
use airplay2_sender_cpp.Doubles.Rounding.{trunc-fit, fit-whole, fit-part, fit-one, div-scale}

abbrev pub signed : Bool → ℕ → Double
signed g u = record { negative = g; units = u }

pub of_int-whole : (g : Bool) (k : ℕ) → k < 2 ^ 53 → of_int g k ≡ signed g (k * scale)
unfolding of_int
of_int-whole g k h = ap (signed g) (fit-whole k h)

pub product_sign : (g : Bool) → not (same_sign g false) ≡ g
unfolding same_sign
product_sign true = refl
product_sign false = refl

-- A whole number times a fraction.
pub mul-part :
    (g : Bool) (k : ℕ) (f : Double)
    → k < 2 ^ 53
    → f.negative ≡ false
    → f.units ≤ scale
    → (p : ℕ) × (p ≤ k * scale) × (mul (of_int g k) f ≡ signed g p)
unfolding mul
mul-part g k f h s le = (
  fit (k * scale * f.units) scale,
  fit-part k f.units h le,
  ap (λ (x : Double). mul x f) (of_int-whole g k h)
      ∙ ap (λ b. signed b (fit (k * scale * f.units) scale))
          (ap (λ b. not (same_sign g b)) s ∙ product_sign g),
)

pub same_sign_self : (g : Bool) → same_sign g g ≡ true
unfolding same_sign
same_sign_self true = refl
same_sign_self false = refl

pub opposite_signs : (g : Bool) → same_sign g (not g) ≡ false
unfolding same_sign
opposite_signs true = refl
opposite_signs false = refl

-- The whole part of a rounded sum.
rounded :
    (lo hi n : ℕ)
    → lo ≤ hi
    → hi < 2 ^ 53
    → lo * scale ≤ n
    → n ≤ hi * scale
    → (lo ≤ fit n 1 / scale) × (fit n 1 / scale ≤ hi)
rounded lo hi n le h below above =
    trunc-fit lo hi n 1 (omega arith) le h (subst (λ t. t ≤ n) (sym (mul-one (lo * scale))) below)
      (subst (λ t. n ≤ t) (sym (mul-one (hi * scale))) above)

sum-le : (m k p : ℕ) → p ≤ k * scale → m * scale + p ≤ (m + k) * scale
sum-le m k p h = omega (arith, h, add-mul m k scale)

below_sum : (m k : ℕ) → m + k < 2 ^ 53 → m < 2 ^ 53
below_sum m k h = omega arith

sum-rounded :
    (m k p : ℕ)
    → m + k < 2 ^ 53
    → p ≤ k * scale
    → (m ≤ fit (m * scale + p) 1 / scale) × (fit (m * scale + p) 1 / scale ≤ m + k)
sum-rounded m k p h le =
    rounded m (m + k) (m * scale + p) (omega arith) h (omega arith) (sum-le m k p le)

difference-mul : (k m : ℕ) → (k - m) * scale ≡ k * scale - m * scale
difference-mul k m =
    mul_comm (k - m) scale
    ∙ mul-sub scale k m
    ∙ ap₂ (λ a b. a - b) (mul_comm scale k) (mul_comm scale m)

zero_sign : (g b : Bool) (t : ℕ) → (b ≡ true → t ≡ 0) → ((g && not b) ≡ g) ⊎ (t ≡ 0)
zero_sign g true t h = inr (h refl)
zero_sign true false t h = inl refl
zero_sign false false t h = inl refl

passing : (m k p : ℕ) → p ≤ k * scale → m * scale < p → m < k
passing m k p h l = lt_of_mul-lt-mul_right scale (omega (arith, h, l))

passed-rounded :
    (m k p : ℕ) → k < 2 ^ 53 → p ≤ k * scale → m * scale < p → fit (p - m * scale) 1 / scale + m ≤ k
passed-rounded m k p h le l =
    let (low, high) =
      rounded 0 (k - m) (p - m * scale) (omega arith) (omega arith) (omega arith)
        (omega (arith, le, difference-mul k m)) in
    omega (arith, high, passing m k p le l)

stayed-rounded :
    (m k p : ℕ)
    → m < 2 ^ 53
    → p ≤ k * scale
    → p ≤ m * scale
    → (fit (m * scale - p) 1 / scale ≤ m) × (m ≤ fit (m * scale - p) 1 / scale + k)
stayed-rounded m k p h le l =
    let (low, high) =
      rounded (m - k) m (m * scale - p) (omega arith) h (omega (arith, le, difference-mul m k))
        (omega arith) in
    (high, omega (arith, low))

cancelled : (m p : ℕ) → (m * scale == p) ≡ true → fit (m * scale - p) 1 / scale ≡ 0
cancelled m p e =
    let same : m * scale ≡ p = (==_iff (m * scale) p).0 e in
    let (low, high) =
      rounded 0 0 (m * scale - p) (omega arith) (omega arith) (omega arith) (omega (arith, same)) in
    omega (arith, high)

-- A sum of numbers of one sign.
pub add-same :
    (g : Bool) (m k p : ℕ)
    → m + k < 2 ^ 53
    → p ≤ k * scale
    → ((add (of_int g m) (signed g p)).negative ≡ g)
      × (m ≤ trunc (add (of_int g m) (signed g p)))
      × (trunc (add (of_int g m) (signed g p)) ≤ m + k)
unfolding add trunc
add-same g m k p h le =
    let (low, high) = sum-rounded m k p h le in
    rw (of_int-whole g m (below_sum m k h), same_sign_self g) (refl, low, high)

-- A sum of numbers of opposite signs: it passes zero, or stays on the side of the first.
abbrev pub Opposed : Bool → ℕ → ℕ → Double → Type 0
Opposed g m k r =
    ((r.negative ≡ not g) × (trunc r + m ≤ k))
    ⊎ (((r.negative ≡ g) ⊎ (trunc r ≡ 0)) × (trunc r ≤ m) × (m ≤ trunc r + k))

pub add-Opposed :
    (g : Bool) (m k p : ℕ)
    → m < 2 ^ 53
    → k < 2 ^ 53
    → p ≤ k * scale
    → Opposed g m k (add (of_int g m) (signed (not g) p))
unfolding add trunc
add-Opposed g m k p hm hk le =
    rw (of_int-whole g m hm, opposite_signs g)
      (if-split (Opposed g m k) (ltb (m * scale) p) _ _
        (λ e. inl (refl, passed-rounded m k p hk le (ltb→lt (m * scale) p e)))
        (λ e.
          let (high, low) = stayed-rounded m k p hm le (ltb_false→le (m * scale) p e) in
          inr (zero_sign g (m * scale == p) _ (cancelled m p), high, low)))

sub-less : (u w : ℕ) → w ≤ u → sub (signed false u) (signed false w) ≡ signed false (fit (u - w) 1)
unfolding sub add negate same_sign
sub-less u w h = rw (le→ltb u w h) refl

-- What is left of a number without a sign when its whole part is taken away.
pub fraction :
    (x : Double)
    → x.negative ≡ false
    → trunc x < 2 ^ 53
    → ((sub x (of_nat (trunc x))).negative ≡ false) × ((sub x (of_nat (trunc x))).units ≤ scale)
unfolding of_nat trunc
fraction x e h =
    let whole = x.units / scale * scale in
    let (below, left) = div-scale x.units in
    let rest : sub x (of_nat (trunc x)) ≡ signed false (fit (x.units - whole) 1) =
      ap₂ sub (ap (λ b. signed b x.units) e) (of_int-whole false (x.units / scale) h)
      ∙ sub-less x.units whole below in
    (
      ap (λ (d : Double). d.negative) rest,
      subst (λ t. t ≤ scale) (sym (ap (λ (d : Double). d.units) rest))
          (fit-one (x.units - whole) left),
    )

-- A sum of numbers without a sign has none.
pub add-unsigned :
    (x y : Double) → x.negative ≡ false → y.negative ≡ false → (add x y).negative ≡ false
unfolding add same_sign
add-unsigned x y e f = rw (e, f) refl
