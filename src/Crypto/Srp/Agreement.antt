-- ===== src/Crypto/Srp/Agreement.antt =====
-- Client and server of SRP-6a compute the same secret.
use native.Mathlib.Nat.{
  mul_assoc, mul_comm, pow-zero, pow-suc, mul-add-mod_self_left, div-add-mod, mod-lt, mod-eq_of_lt,
  mod-eq-sub-mod, mod-add-mod, add-mod_right,
}
use native.Mathlib.Decide.{dec_lt}
use airplay2_sender_cpp.Base.{
  ℕ, zero, suc, ◌+◌, ◌-◌, ◌*◌, ◌/◌, ◌%◌, ◌^◌, ◌<◌, ◌≡◌, ap, sym, ◌∙◌, arith, pow_add,
}
use airplay2_sender_cpp.Crypto.Backend.{Backend}
use airplay2_sender_cpp.Crypto.Srp.{srp_s, group_n, group_g}

pow_mul : (g m n : ℕ) → (g ^ m) ^ n ≡ g ^ (m * n)
pow_mul g m zero =
    pow-zero (g ^ m) ∙ sym (ap (◌^◌ g) (let e : m * 0 ≡ 0 = omega arith in e) ∙ pow-zero g)
pow_mul g m (suc n) =
    pow-suc (g ^ m) n
    ∙ (ap (λ t. t * g ^ m) (pow_mul g m n)
        ∙ (sym (pow_add g (m * n) m)
            ∙ ap (◌^◌ g) (let e : m * n + m ≡ m * suc n = omega arith in e)))

module _ (n : ℕ) where
  mod-mul_left : (x y : ℕ) → (x % n * y) % n ≡ (x * y) % n
  mod-mul_left x y =
      sym (mul-add-mod_self_left n (x / n * y) (x % n * y))
      ∙ ap (λ t. t % n) (omega (arith, mul_assoc n (x / n) y, ap (λ t. t * y) (div-add-mod x n)))

  mod-mul_right : (x y : ℕ) → (x * (y % n)) % n ≡ (x * y) % n
  mod-mul_right x y =
      ap (λ t. t % n) (mul_comm x (y % n)) ∙ (mod-mul_left y x ∙ ap (λ t. t % n) (mul_comm y x))

  mod-pow : (x e : ℕ) → (x % n) ^ e % n ≡ x ^ e % n
  mod-pow x zero = ap (λ t. t % n) (pow-zero (x % n) ∙ sym (pow-zero x))
  mod-pow x (suc e) =
      ap (λ t. t % n) (pow-suc (x % n) e)
      ∙ (mod-mul_right ((x % n) ^ e) x
          ∙ (sym (mod-mul_left ((x % n) ^ e) x)
              ∙ (ap (λ t. (t * x) % n) (mod-pow x e)
                  ∙ (mod-mul_left (x ^ e) x ∙ ap (λ t. t % n) (sym (pow-suc x e))))))

  -- Taking `y` away again, modulo `n`.
  add-sub-mod : (x y : ℕ) → x < n → y < n → ((y + x) % n + n - y) % n ≡ x
  add-sub-mod x y hx hy = elim (dec_lt (y + x) n) [
    | yes lt ↦
        ap (λ t. (t + n - y) % n) (mod-eq_of_lt lt)
        ∙ (ap (λ t. t % n) (let e : y + x + n - y ≡ x + n = omega arith in e)
            ∙ (add-mod_right x n ∙ mod-eq_of_lt hx))
    | no ge ↦
        ap (λ t. (t + n - y) % n)
          (mod-eq-sub-mod {n = y + x} {m = n} (omega arith) ∙ mod-eq_of_lt (omega arith))
        ∙ (ap (λ t. t % n) (let e : y + x - n + n - y ≡ x = omega arith in e) ∙ mod-eq_of_lt hx)
  ]

  module _ (pos : 0 < n) (g a y k u x : ℕ) where
    abbrev verifier : ℕ
    verifier = g ^ x % n

    base : ((k * verifier + g ^ y % n) % n + n - k * verifier % n) % n ≡ g ^ y % n
    base =
        ap (λ t. (t + n - k * verifier % n) % n) (sym (mod-add-mod (k * verifier) n (g ^ y % n)))
        ∙ add-sub-mod (g ^ y % n) (k * verifier % n) (mod-lt (g ^ y) pos)
            (mod-lt (k * verifier) pos)

    client :
        (((k * verifier + g ^ y % n) % n + n - k * verifier % n) % n) ^ (a + u * x) % n
        ≡ g ^ (y * (a + u * x)) % n
    client =
        ap (λ t. t ^ (a + u * x) % n) base
        ∙ (mod-pow (g ^ y) (a + u * x) ∙ ap (λ t. t % n) (pow_mul g y (a + u * x)))

    scrambled : (g ^ a % n * verifier ^ u) % n ≡ g ^ (a + x * u) % n
    scrambled =
        mod-mul_left (g ^ a) (verifier ^ u)
        ∙ (sym (mod-mul_right (g ^ a) (verifier ^ u))
            ∙ (ap (λ t. (g ^ a * t) % n) (mod-pow (g ^ x) u)
                ∙ (mod-mul_right (g ^ a) ((g ^ x) ^ u)
                    ∙ (ap (λ t. (g ^ a * t) % n) (pow_mul g x u)
                        ∙ ap (λ t. t % n) (sym (pow_add g a (x * u)))))))

    server : (g ^ a % n * verifier ^ u) ^ y % n ≡ g ^ (y * (a + u * x)) % n
    server =
        sym (mod-pow (g ^ a % n * verifier ^ u) y)
        ∙ (ap (λ t. t ^ y % n) scrambled
            ∙ (mod-pow (g ^ (a + x * u)) y
                ∙ ap (λ t. t % n)
                    (pow_mul g (a + x * u) y
                      ∙ ap (◌^◌ g) (let e : (a + x * u) * y ≡ y * (a + u * x) = grind arith in e))))

-- The server of SRP-6a with the verifier `v`: its public value and its secret.
abbrev pub server_b : ℕ → ℕ → ℕ → ℕ
server_b k v y = (k * v + group_g ^ y % group_n) % group_n

abbrev pub server_s : ℕ → ℕ → ℕ → ℕ → ℕ
server_s public_a v u y = (public_a * v ^ u) ^ y % group_n

-- Whatever the secrets `a` and `y`, the multiplier `k`, the scrambler `u` and the password's `x`:
-- if the server holds the verifier g^x mod N and sends k v + g^y mod N, the client's S is the
-- server's. The backend's modular exponentiation is assumed to be that.
pub srp_s-server_s :
    (b : Backend)
    → ((x e n : ℕ) → b.exp_mod x e n ≡ x ^ e % n)
    → (a y k u x : ℕ)
    → let v = group_g ^ x % group_n in
      srp_s b a (server_b k v y) k u x ≡ server_s (b.exp_mod group_g a group_n) v u y
unfolding srp_s
srp_s-server_s b power a y k u x =
    power _ _ group_n
    ∙ (ap
          (λ t.
            ((server_b k (group_g ^ x % group_n) y + group_n - k * t % group_n) % group_n)
              ^ (a + u * x)
            % group_n)
          (power group_g x group_n)
        ∙ (client group_n (omega arith) group_g a y k u x
            ∙ (sym (server group_n (omega arith) group_g a y k u x)
                ∙ ap (λ t. (t * (group_g ^ x % group_n) ^ u) ^ y % group_n)
                    (sym (power group_g a group_n)))))
