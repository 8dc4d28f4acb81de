-- ===== src/Base/Words.antt =====
-- Remainders by a power of two: inside a longer word, and stepping round.
use Prim.Native.Nat.{ℕ, zero, suc, ◌+◌, ◌-◌, ◌*◌, ◌/◌, ◌%◌, ◌^◌, ◌≤◌, ◌<◌}
use mathlib.Core.Path.{◌≡◌, ap, ◌∙◌, sym}
use native.Mathlib.Omega.{arith}
use native.Mathlib.Nat.{
  pow-suc, pow-zero, mul_assoc, div-add-mod, mul-add-mod_self_left, mod-add-mod, mod-eq_of_lt,
  mod-eq-sub-mod, mod-lt,
}
use native.Mathlib.Decide.{dec_lt}
use airplay2_sender_cpp.Base.Tests.{ltb, if◌then◌else◌}

pub pow_add : (n a b : ℕ) → n ^ (a + b) ≡ n ^ a * n ^ b
pow_add n a zero =
    ap (◌^◌ n) (let e : a + 0 ≡ a = omega arith in e)
    ∙ omega (arith, ap (λ t. n ^ a * t) (pow-zero n))
pow_add n a (suc b) =
    ap (◌^◌ n) (let e : a + suc b ≡ suc (a + b) = omega arith in e)
    ∙ (pow-suc n (a + b)
        ∙ (ap (λ t. t * n) (pow_add n a b)
            ∙ (mul_assoc (n ^ a) (n ^ b) n ∙ ap (◌*◌ (n ^ a)) (sym (pow-suc n b)))))

mod-mul-mod : (x p q : ℕ) → x % (p * q) % p ≡ x % p
mod-mul-mod x p q =
    sym (mul-add-mod_self_left p (q * (x / (p * q))) (x % (p * q)))
    ∙ ap (λ t. t % p)
        (ap (λ t. t + x % (p * q)) (sym (mul_assoc p q (x / (p * q)))) ∙ div-add-mod x (p * q))

-- A word of 64 bits keeps its remainder by a smaller power of two.
pub mod_word_mod : (k x : ℕ) → k < 64 → x % 2 ^ 64 % 2 ^ k ≡ x % 2 ^ k
mod_word_mod k x h =
    ap (λ t. x % t % 2 ^ k)
      (ap (◌^◌ 2) (let e : 64 ≡ k + (64 - k) = omega arith in e) ∙ pow_add 2 k (64 - k))
    ∙ mod-mul-mod x (2 ^ k) (2 ^ (64 - k))

-- At most one turn further round.
pub mod_step :
    (x i p : ℕ)
    → 0 < p
    → i ≤ p
    → (x + i) % p ≡ (if ltb (x % p + i) p then x % p + i else x % p + i - p)
mod_step x i p h hi = elim (dec_lt (x % p + i) p) [
  | yes lt ↦ ground (arith, mod-add-mod x p i, mod-eq_of_lt lt)
  | no ge ↦ ground (
    arith,
    mod-add-mod x p i,
    mod-lt x h,
    mod-eq-sub-mod {n = x % p + i} {m = p} (omega arith),
    mod-eq_of_lt {n = x % p + i - p} {m = p} (omega (arith, mod-lt x h)),
  )
]
