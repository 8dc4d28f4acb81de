-- ===== src/Doubles/Rounding.antt =====
-- Rounding to a double does not pass a double.
use native.Mathlib.Nat.{
  mul_assoc, mul_comm, div-mul-le_self, lt-div-mul-add, le_antisymm, le_of_eq, mul-le-mul_left,
  mul-one, pow-suc, mul_left_comm, mul-mod_left, div-le_of_le-mul, div-lt_iff_lt-mul,
  le-div_iff_mul-le,
}
use airplay2_sender_cpp.Base.{
  Bool, true, false, ◌||◌, ◌&&◌, ◌==◌, inl, inr, ◌⊎◌, Bool-cases, if-both, ℕ, zero, suc, ◌-◌, ◌*◌,
  ◌/◌, ◌%◌, ◌^◌, ◌≤◌, ◌<◌, ◌≡◌, refl, ap, sym, subst, ◌∙◌, arith, ltb, if-split, elim-split,
  ltb_false→le, ltb→lt,
}
use airplay2_sender_cpp.Doubles.{half_even, nearest, fit, scale}

-- A whole number of units with 53 bits.
pub data Wide : ℕ → Type 0 where
  narrow : (m : ℕ) → m < 2 ^ 53 → Wide m
  doubled : (m : ℕ) → Wide m → Wide (2 * m)

down : ℕ → ℕ → ℕ → Bool
down q r d = ltb (2 * r) d || ((2 * r == d) && (q % 2 == 0))

down-exact : (q r d : ℕ) → 0 < d → r ≡ 0 → down q r d ≡ true
unfolding down
down-exact q r d p e = ground arith

quotient-lt : (n d m : ℕ) → 0 < d → n ≤ m * d → down (n / d) (n % d) d ≡ false → n / d < m
quotient-lt n d m p h e = elim (Bool-cases (ltb n (m * d))) [
  | inl l ↦ (div-lt_iff_lt-mul {y = m} p).1 (ltb→lt n (m * d) l)
  | inr l ↦
      let same : n ≡ m * d = omega (arith, ltb_false→le n (m * d) l) in
      let none_left : n % d ≡ 0 = ap (λ t. t % d) same ∙ mul-mod_left m d in
      ground (arith, e, down-exact (n / d) (n % d) d p none_left)
]

half_even-le : (n d m : ℕ) → 0 < d → n ≤ m * d → half_even n d ≤ m
unfolding half_even down
half_even-le n d m p h =
    if-split (λ x. x ≤ m) (down (n / d) (n % d) d) _ _
      (λ e. div-le_of_le-mul d (subst (λ t. n ≤ t) (mul_comm m d) h)) (λ e. quotient-lt n d m p h e)

le-half_even : (n d m : ℕ) → 0 < d → m * d ≤ n → m ≤ half_even n d
unfolding half_even
le-half_even n d m p h =
    let below : m ≤ n / d = (le-div_iff_mul-le p).1 h in
    if-both (λ x. m ≤ x) _ (n / d) (suc (n / d)) below (omega arith)

-- Of a number of 53 bits that is at least 2^53, the half has 53 bits.
half-Wide : (m : ℕ) → 2 ^ 53 ≤ m → Wide m → (k : ℕ) × (m ≡ 2 * k) × Wide k
half-Wide m le (narrow _ lt) = absurd (omega arith)
half-Wide _ le (doubled k w) = (k, refl, w)

-- Some number of 53 bits from the half on.
upper_half : (m : ℕ) → Wide m → (k : ℕ) × ((k ≡ 2 ^ 52) ⊎ (m ≡ 2 * k)) × (m ≤ 2 * k) × Wide k
upper_half m (narrow _ lt) = (2 ^ 52, inl refl, omega arith, narrow (2 ^ 52) (omega arith))
upper_half _ (doubled k w) = (k, inr refl, omega arith, w)

shift : (k d : ℕ) → k * (2 * d) ≡ 2 * k * d
shift k d = omega (arith, mul_assoc 2 k d, mul_left_comm k 2 d)

nearest-le : (fuel n d m : ℕ) → 0 < d → Wide m → n ≤ m * d → nearest fuel n d ≤ m
unfolding nearest
nearest-le zero n d m p w h = half_even-le n d m p h
nearest-le (suc fuel) n d m p w h =
    elim-split (λ x. x ≤ m) (ltb (n / d) (2 ^ 53)) _ _ (λ e. half_even-le n d m p h)
      (λ e.
        let quotient : n / d ≤ m = div-le_of_le-mul d (subst (λ t. n ≤ t) (mul_comm m d) h) in
        let (k, same, half) = half-Wide m (omega (arith, ltb_false→le (n / d) (2 ^ 53) e)) w in
        let scaled : n ≤ k * (2 * d) =
          subst (λ t. n ≤ t) (ap (λ t. t * d) same ∙ sym (shift k d)) h in
        omega (arith, nearest-le fuel n (2 * d) k (omega arith) half scaled))

le-nearest : (fuel n d m : ℕ) → 0 < d → Wide m → m * d ≤ n → m ≤ nearest fuel n d
unfolding nearest
le-nearest zero n d m p w h = le-half_even n d m p h
le-nearest (suc fuel) n d m p w h =
    elim-split (λ x. m ≤ x) (ltb (n / d) (2 ^ 53)) _ _ (λ e. le-half_even n d m p h)
      (λ e.
        let large : 2 ^ 53 * d ≤ n = (le-div_iff_mul-le p).0 (ltb_false→le (n / d) (2 ^ 53) e) in
        let (k, which, le, half) = upper_half m w in
        let scaled : k * (2 * d) ≤ n = elim which [
          | inl same ↦ subst (λ t. t ≤ n) (ap (λ t. t * d) (omega arith) ∙ sym (shift k d)) large
          | inr same ↦ subst (λ t. t ≤ n) (ap (λ t. t * d) same ∙ sym (shift k d)) h
        ] in
        omega (arith, le-nearest fuel n (2 * d) k (omega arith) half scaled))

power-Wide : (e k : ℕ) → k < 2 ^ 53 → Wide (k * 2 ^ e)
power-Wide zero k h = subst Wide (sym (mul-one k)) (narrow k h)
power-Wide (suc e) k h =
    subst Wide
      (mul_left_comm 2 k (2 ^ e) ∙ ap (λ t. k * t) (mul_comm 2 (2 ^ e) ∙ sym (pow-suc 2 e)))
      (doubled (k * 2 ^ e) (power-Wide e k h))

pub scale-pos : 0 < scale
unfolding scale
scale-pos = omega arith

whole-Wide : (k : ℕ) → k < 2 ^ 53 → Wide (k * scale)
unfolding scale
whole-Wide k h = power-Wide 1074 k h

-- What lies between two whole numbers of at most 53 bits lies there when it has been rounded.
pub trunc-fit :
    (lo hi n d : ℕ)
    → 0 < d
    → lo ≤ hi
    → hi < 2 ^ 53
    → lo * scale * d ≤ n
    → n ≤ hi * scale * d
    → (lo ≤ fit n d / scale) × (fit n d / scale ≤ hi)
unfolding fit
trunc-fit lo hi n d p le wide below above = (
  (le-div_iff_mul-le scale-pos).1
      (le-nearest 2045 n d (lo * scale) p (whole-Wide lo (omega arith)) below),
  div-le_of_le-mul scale (
      subst (λ t. fit n d ≤ t) (mul_comm hi scale)
        (nearest-le 2045 n d (hi * scale) p (whole-Wide hi wide) above)),
)

-- A whole number of at most 53 bits is a double.
pub fit-whole : (k : ℕ) → k < 2 ^ 53 → fit (k * scale) 1 ≡ k * scale
unfolding fit
fit-whole k h =
    le_antisymm
      (nearest-le 2045 (k * scale) 1 (k * scale) (omega arith) (whole-Wide k h)
        (le_of_eq (sym (mul-one (k * scale)))))
      (le-nearest 2045 (k * scale) 1 (k * scale) (omega arith) (whole-Wide k h)
        (le_of_eq (mul-one (k * scale))))

-- A product with a factor of at most one is at most the other factor, if that is a whole number.
pub fit-part : (k f : ℕ) → k < 2 ^ 53 → f ≤ scale → fit (k * scale * f) scale ≤ k * scale
unfolding fit
fit-part k f h le =
    nearest-le 2045 (k * scale * f) scale (k * scale) scale-pos (whole-Wide k h)
      (mul-le-mul_left (k * scale) le)

-- What is at most one stays so when it is rounded.
pub fit-one : (n : ℕ) → n ≤ scale → fit n 1 ≤ scale
unfolding fit
fit-one n h =
    nearest-le 2045 n 1 scale (omega arith)
      (subst Wide (mul_comm 1 scale ∙ mul-one scale) (whole-Wide 1 (omega arith)))
      (subst (λ t. n ≤ t) (sym (mul-one scale)) h)

pub div-scale : (u : ℕ) → (u / scale * scale ≤ u) × (u - u / scale * scale ≤ scale)
div-scale u = (div-mul-le_self u scale, omega (arith, lt-div-mul-add {a = u} scale-pos))

-- What is at most a whole number stays so when it is rounded.
pub fit-le : (hi n d : ℕ) → 0 < d → hi < 2 ^ 53 → n ≤ hi * scale * d → fit n d ≤ hi * scale
unfolding fit
fit-le hi n d p h le = nearest-le 2045 n d (hi * scale) p (whole-Wide hi h) le
