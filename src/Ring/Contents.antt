-- ===== src/Ring/Contents.antt =====
-- The representation invariant of the ring, the queue that it holds, and its read positions.
use airplay2_sender_cpp.Base.{
  ℕ, ◌+◌, ◌-◌, ◌%◌, ◌^◌, ◌≤◌, ◌<◌, ◌≡◌, ap, ◌∙◌, List, length, get_or, tabulate, arith, bit_and,
  bit_and_mask, pow_pos, mod_word_mod,
}
use native.Mathlib.Nat.{pow-le-pow_right}
use airplay2_sender_cpp.Ring.{Ring, capacity, size_mod, size_sub, size_add}

-- The capacity is `2 ^ k`, the storage has that many elements, and no more are held.
pub record IsValid {A : Type 0} (k : ℕ) (r : Ring A) : Type 0 where
  pub small : k < 64
  pub mask_eq : r.mask ≡ 2 ^ k - 1
  pub storage : length r.buffer ≡ 2 ^ k
  pub read_in : r.read < size_mod
  pub write_in : r.write < size_mod
  pub held : size_sub r.write r.read ≤ 2 ^ k

module _ {A : Type 0} (blank : A) (k : ℕ) where
  -- The `n` elements from the counter `from` on, going round at the capacity.
  abbrev pub window : List A → ℕ → ℕ → List A
  window buf from n = tabulate n (λ i. get_or buf ((from + i) % 2 ^ k) blank)

  -- The queue that the ring holds, oldest first.
  abbrev pub contents : Ring A → List A
  contents r = window r.buffer r.read (size_sub r.write r.read)

pub pow_le_word : (k : ℕ) → k < 64 → 2 ^ k ≤ 2 ^ 63
pow_le_word k h = pow-le-pow_right (omega arith) {j = 63} (omega arith)

module _ {A : Type 0} (k : ℕ) where
  pub capacity-pow : (r : Ring A) → IsValid k r → capacity r ≡ 2 ^ k
  unfolding capacity
  capacity-pow r v = omega (arith, v.mask_eq, pow_le_word k v.small, pow_pos k)

  -- Masking a counter finds its place in the storage.
  pub bit_and-place : (r : Ring A) (x : ℕ) → IsValid k r → bit_and x r.mask ≡ x % 2 ^ k
  bit_and-place r x v = ap (bit_and x) v.mask_eq ∙ bit_and_mask k x

-- The write counter is the read counter and the fill, modulo the word.
pub write_of_read : (w r : ℕ) → w < size_mod → r < size_mod → w ≡ size_add r (size_sub w r)
write_of_read w r hw hr = omega arith

-- So they agree in their places.
pub write_place :
    (k w r : ℕ) → k < 64 → w < size_mod → r < size_mod → w % 2 ^ k ≡ (r + size_sub w r) % 2 ^ k
write_place k w r h hw hr =
    ap (λ t. t % 2 ^ k) (write_of_read w r hw hr) ∙ mod_word_mod k (r + size_sub w r) h
