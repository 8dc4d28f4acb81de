-- ===== src/Base/Bits.antt =====
-- Masks: `x & (2^k - 1)` is the remainder by `2^k`.
use Prim.Native.Nat.{
  max, bit_or-bitwise, bit_or, ℕ, zero, suc, ◌+◌, ◌-◌, ◌*◌, ◌/◌, ◌%◌, ◌^◌, ◌≤◌, ◌<◌, min, bit_and,
  digits, bit_and-bitwise,
}
use mathlib.Core.Bool.{Bool, true, ◌&&◌}
use mathlib.Core.Path.{◌∙◌, ◌≡◌, refl, ap, sym}
use native.Mathlib.Omega.{arith}
use native.Mathlib.Nat.{
  div-lt_iff_lt-mul, div-div-eq-div-mul, div-eq_of_lt, div-one, pow-zero, pow-suc, pow-succ',
}

-- More digits than the left operand has change nothing.
digits_enough :
    (z : ℕ → ℕ) (f : ℕ → ℕ → ℕ) (n m a b : ℕ) → a ≤ n → a ≤ m → digits z f n a b ≡ digits z f m a b
digits_enough z f zero zero a b p q = refl
digits_enough z f zero (suc m) zero b p q = refl
digits_enough z f zero (suc m) (suc a) b p q = absurd (omega arith)
digits_enough z f (suc n) zero zero b p q = refl
digits_enough z f (suc n) zero (suc a) b p q = absurd (omega arith)
digits_enough z f (suc n) (suc m) zero b p q = refl
digits_enough z f (suc n) (suc m) (suc a) b p q =
    omega (arith, digits_enough z f n m (suc a / 2) (b / 2) (omega arith) (omega arith))

zero-bit_and : (b : ℕ) → bit_and 0 b ≡ 0
zero-bit_and b = bit_and-bitwise 0 b

-- The lowest bit of a conjunction, and the rest.
pub bit_and_digit : (a b : ℕ) → bit_and a b ≡ bit_and (a / 2) (b / 2) * 2 + min (a % 2) (b % 2)
bit_and_digit zero b = omega (arith, zero-bit_and b, zero-bit_and (b / 2))
bit_and_digit (suc a) b = omega (
  arith,
  bit_and-bitwise (suc a) b,
  bit_and-bitwise (suc a / 2) (b / 2),
  digits_enough (λ _. zero) min a (suc a / 2) (suc a / 2) (b / 2) (omega arith) (omega arith),
)

pub bit_and-zero : (n a : ℕ) → a ≤ n → bit_and a 0 ≡ 0
bit_and-zero n zero h = refl
bit_and-zero zero (suc a) h = absurd (omega arith)
bit_and-zero (suc n) (suc a) h =
    omega (arith, bit_and_digit (suc a) 0, bit_and-zero n (suc a / 2) (omega arith))

pub pow_pos : (k : ℕ) → 0 < 2 ^ k
pow_pos zero = omega arith
pow_pos (suc k) = omega (arith, pow_pos k, pow-suc 2 k)

half-mod : (a p : ℕ) → 0 < p → a % (2 * p) ≡ (a / 2) % p * 2 + a % 2
half-mod a p h = grind arith

-- A mask of `k + 1` ones, taken apart.
mask_digit : (a p : ℕ) → 0 < p → bit_and a (2 * p - 1) ≡ bit_and (a / 2) (p - 1) * 2 + a % 2
mask_digit a p h =
    let q : (2 * p - 1) / 2 ≡ p - 1 = omega arith in
    omega (arith, bit_and_digit a (2 * p - 1), ap (bit_and (a / 2)) q)

pub bit_and_mask : (k a : ℕ) → bit_and a (2 ^ k - 1) ≡ a % 2 ^ k
bit_and_mask zero a = omega (arith, bit_and-zero a a)
bit_and_mask (suc k) a =
    rw (pow-succ' 2 k, mask_digit a (2 ^ k) (pow_pos k), bit_and_mask k (a / 2))
      (sym (half-mod a (2 ^ k) (pow_pos k)))

zero-bit_or : (b : ℕ) → bit_or 0 b ≡ b
zero-bit_or b = bit_or-bitwise 0 b

-- The lowest bit of a disjunction, and the rest.
bit_or_digit : (a b : ℕ) → bit_or a b ≡ bit_or (a / 2) (b / 2) * 2 + max (a % 2) (b % 2)
bit_or_digit zero b = omega (arith, zero-bit_or b, zero-bit_or (b / 2))
bit_or_digit (suc a) b = omega (
  arith,
  bit_or-bitwise (suc a) b,
  bit_or-bitwise (suc a / 2) (b / 2),
  digits_enough (λ t. t) max a (suc a / 2) (suc a / 2) (b / 2) (omega arith) (omega arith),
)

pub div_pow : (a j : ℕ) → a / 2 ^ suc j ≡ a / 2 ^ j / 2
div_pow a j = ap (◌/◌ a) (pow-suc 2 j) ∙ sym (div-div-eq-div-mul a (2 ^ j) 2)

pub bit_or-shift : (j a b : ℕ) → bit_or a b / 2 ^ j ≡ bit_or (a / 2 ^ j) (b / 2 ^ j)
bit_or-shift zero a b = simp (pow-zero, div-one)
bit_or-shift (suc j) a b =
    rw (div_pow (bit_or a b) j, bit_or-shift j a b, div_pow a j, div_pow b j)
      (omega (arith, bit_or_digit (a / 2 ^ j) (b / 2 ^ j)))

-- The bit of `x` at place `i`.
abbrev pub bit : ℕ → ℕ → ℕ
bit x i = x / 2 ^ i % 2

pub bit-bit_or : (a b i : ℕ) → bit (bit_or a b) i ≡ max (bit a i) (bit b i)
bit-bit_or a b i = rw (bit_or-shift i a b) (omega (arith, bit_or_digit (a / 2 ^ i) (b / 2 ^ i)))

pub bit_or-lt : (w a b : ℕ) → a < 2 ^ w → b < 2 ^ w → bit_or a b < 2 ^ w
bit_or-lt w a b ha hb =
    let lt : bit_or a b < 1 * 2 ^ w = (div-lt_iff_lt-mul (pow_pos w)).0 below in omega arith
  where
    below : bit_or a b / 2 ^ w < 1
    below = rw (bit_or-shift w a b, div-eq_of_lt ha, div-eq_of_lt hb) (omega arith)

-- The bits of half a number are those above the lowest.
bit-half : (x i : ℕ) → bit (x / 2) i ≡ bit x (suc i)
bit-half x i = ap (λ t. t % 2) (div-div-eq-div-mul x 2 (2 ^ i) ∙ ap (◌/◌ x) (sym (pow-succ' 2 i)))

-- A number of `w` bits that are all set.
pub all_ones : (w x : ℕ) → x < 2 ^ w → ((i : ℕ) → i < w → bit x i ≡ 1) → x ≡ 2 ^ w - 1
all_ones zero x h b = omega (arith, pow-zero 2)
all_ones (suc w) x h b = omega (
  arith,
  pow-succ' 2 w,
  pow_pos w,
  b 0 (omega arith),
  div-one x,
  all_ones w (x / 2) (omega (arith, pow-succ' 2 w))
      (λ i hi. bit-half x i ∙ b (suc i) (omega arith)),
)

bit_or-zero : (n a : ℕ) → a ≤ n → bit_or a 0 ≡ a
bit_or-zero n zero h = refl
bit_or-zero zero (suc a) h = absurd (omega arith)
bit_or-zero (suc n) (suc a) h =
    omega (arith, bit_or_digit (suc a) 0, bit_or-zero n (suc a / 2) (omega arith))

half_above : (a p b : ℕ) → bit_or (a * (2 * p)) b ≡ bit_or (a * p) (b / 2) * 2 + b % 2
half_above a p b =
    let q : a * (2 * p) / 2 ≡ a * p = omega arith in
    omega (arith, bit_or_digit (a * (2 * p)) b, ap (λ t. bit_or t (b / 2)) q)

-- A word placed above `k` low bits.
pub bit_or_above : (k a b : ℕ) → b < 2 ^ k → bit_or (a * 2 ^ k) b ≡ a * 2 ^ k + b
bit_or_above zero a b h =
    let e : b ≡ 0 = omega (arith, pow-zero 2) in
    rw e (bit_or-zero (a * 2 ^ 0) (a * 2 ^ 0) (omega arith) ∙ omega arith)
bit_or_above (suc k) a b h =
    rw
      (
        pow-succ' 2 k,
        half_above a (2 ^ k) b,
        bit_or_above k a (b / 2) (omega (arith, pow-succ' 2 k)),
      )
      (omega arith)

abbrev pub all_below : ℕ → (ℕ → Bool) → Bool
all_below zero p = true
all_below (suc n) p = p n && all_below n p

-- A table over a small range is checked by evaluation.
pub all_below_sound : (n : ℕ) (p : ℕ → Bool) (x : ℕ) → all_below n p ≡ true → x < n → p x ≡ true
all_below_sound zero p x h lt = absurd (omega arith)
all_below_sound (suc n) p x h lt = ground (arith, all_below_sound n p x)
