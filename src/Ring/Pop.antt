-- ===== src/Ring/Pop.antt =====
-- `tryPop` takes the oldest elements of the queue that the ring holds, or refuses.
use native.Mathlib.Nat.{add_assoc, mod-add-mod, mod-lt}
use airplay2_sender_cpp.Base.{
  bit_and, length-take, length-append, if-both, get_or-drop, mod_word_mod, length-drop, not, ℕ,
  zero, suc, ◌+◌, ◌-◌, ◌%◌, ◌^◌, ◌≤◌, ◌<◌, ◌≡◌, refl, ap, ap₂, sym, ◌∙◌, List, [], ◌∷◌, ◌++◌,
  length, get_or, take, drop, min, tabulate, arith, pow_pos, mod_step, Option, none, some, Bool,
  true, false, inl, inr, ltb, leb, if◌then◌else◌, tabulate-append, tabulate-eq, length-tabulate,
  Bool-cases,
}
use airplay2_sender_cpp.Ring.{capacity, try_pop, Ring, size_sub, size_add, fetch, pop_seen}
use airplay2_sender_cpp.Ring.Contents.{
  IsValid, window, contents, pow_le_word, capacity-pow, bit_and-place,
}

module _ {A : Type 0} where
  take-tabulate :
      (n : ℕ) (xs : List A) (d : A) → n ≤ length xs → take n xs ≡ tabulate n (λ i. get_or xs i d)
  take-tabulate zero xs d h = refl
  take-tabulate (suc n) [] d h = absurd (omega arith)
  take-tabulate (suc n) (x ∷ xs) d h = ap (◌∷◌ x) (take-tabulate n xs d (omega arith))

  take-drop-tabulate :
      (p n : ℕ) (xs : List A) (d : A)
      → p + n ≤ length xs
      → take n (drop p xs) ≡ tabulate n (λ i. get_or xs (p + i) d)
  take-drop-tabulate p n xs d h =
      take-tabulate n (drop p xs) d (omega (arith, length-drop p xs))
      ∙ tabulate-eq n _ _ (λ i hi. get_or-drop p xs i d)

  -- The two copies read round the end of the storage.
  around :
      (buf : List A) (rd n p : ℕ) (d : A)
      → 0 < p
      → n ≤ p
      → length buf ≡ p
      → take (min n (p - rd % p)) (drop (rd % p) buf) ++ take (n - min n (p - rd % p)) buf
        ≡ tabulate n (λ i. get_or buf ((rd + i) % p) d)
  around buf rd n p d hp hn hb =
      ap₂ ◌++◌
        (take-drop-tabulate (rd % p) first buf d (omega (arith, mod-lt rd hp))
          ∙ tabulate-eq first _ _ (λ i hi. ap (λ t. get_or buf t d) (before i hi)))
        (take-tabulate (n - first) buf d (omega arith)
          ∙ tabulate-eq (n - first) _ _ (λ i hi. ap (λ t. get_or buf t d) (after i hi)))
      ∙ sym (
          ap (λ t. tabulate t (λ i. get_or buf ((rd + i) % p) d))
            (let e : n ≡ first + (n - first) = omega arith in e)
          ∙ tabulate-append first (n - first) (λ i. get_or buf ((rd + i) % p) d))
    where
      first : ℕ
      first = min n (p - rd % p)

      before : (i : ℕ) → i < first → rd % p + i ≡ (rd + i) % p
      before i hi = ground (arith, mod_step rd i p hp)

      after : (i : ℕ) → i < n - first → i ≡ (rd + (first + i)) % p
      after i hi = ground (arith, mod_step rd (first + i) p hp, mod-lt rd hp)

  module _ (blank : A) (k : ℕ) (r : Ring A) (v : IsValid k r) (n : ℕ) where
    abbrev fill : ℕ
    fill = size_sub r.write r.read

    module _ (held : n ≤ fill) where
      fetch-window : fetch r r.read n ≡ window blank k r.buffer r.read n
      unfolding fetch
      fetch-window =
          rw (bit_and-place k r r.read v, capacity-pow k r v)
            (ap
                (λ t.
                  take (min n t) (drop (r.read % 2 ^ k) r.buffer) ++ take (n - min n t) r.buffer)
                (let e : size_sub (2 ^ k) (r.read % 2 ^ k) ≡ 2 ^ k - r.read % 2 ^ k =
                    omega (arith, mod-lt r.read (pow_pos k), pow_le_word k v.small) in
                  e)
              ∙ around r.buffer r.read n (2 ^ k) blank (pow_pos k) (omega (arith, v.held))
                  v.storage)

      fill-shrinks : size_sub r.write (size_add r.read n) ≡ fill - n
      fill-shrinks = omega (arith, v.held, v.read_in, v.write_in, pow_le_word k v.small)

      -- A counter that has wrapped still finds its place.
      rest_place : (i : ℕ) → (size_add r.read n + i) % 2 ^ k ≡ (r.read + (n + i)) % 2 ^ k
      rest_place i =
          sym (mod-add-mod (size_add r.read n) (2 ^ k) i)
          ∙ (ap (λ t. (t + i) % 2 ^ k) (mod_word_mod k (r.read + n) v.small)
              ∙ (mod-add-mod (r.read + n) (2 ^ k) i ∙ ap (λ t. t % 2 ^ k) (add_assoc r.read n i)))

      contents-split :
          contents blank k r
          ≡ window blank k r.buffer r.read n
            ++ contents blank k (record r { read = size_add r.read n })
      contents-split =
          ap (window blank k r.buffer r.read) (let e : fill ≡ n + (fill - n) = omega arith in e)
          ∙ (tabulate-append n (fill - n) (λ i. get_or r.buffer ((r.read + i) % 2 ^ k) blank)
              ∙ ap (◌++◌ (window blank k r.buffer r.read n)) (
                  tabulate-eq (fill - n) _ _
                    (λ i hi. ap (λ t. get_or r.buffer t blank) (sym (rest_place i)))
                  ∙ ap (window blank k r.buffer (size_add r.read n)) (sym fill-shrinks)))

      popped-IsValid : IsValid k (record r { read = size_add r.read n })
      popped-IsValid = record {
        small = v.small;
        mask_eq = v.mask_eq;
        storage = v.storage;
        read_in = omega arith;
        write_in = v.write_in;
        held = omega (arith, fill-shrinks, v.held);
      }

  -- What a pop of `n` elements must do to a queue of which `ready` elements have been seen.
  abbrev pub Pops : A → ℕ → Ring A → ℕ → ℕ → Option (List A) × Ring A → Type 0
  Pops blank k r n ready (out, r') =
      IsValid k r'
      × (r'.write ≡ r.write)
      × (if leb n ready
          then ((ys : List A) × (out ≡ some ys)
              × (length ys ≡ n)
              × (contents blank k r ≡ ys ++ contents blank k r'))
          else (out ≡ none) × (r' ≡ r))

  -- Whatever value of `write_` the consumer has loaded, as long as the writer has since only moved
  -- on: the pop is refused exactly if it asks for more than the elements seen, and then nothing
  -- changes; otherwise it yields that many of the oldest elements, in order, and leaves the rest.
  -- The invariant holds afterwards.
  pub pop_seen-Pops :
      (blank : A) (k wr : ℕ) (r : Ring A) (n : ℕ)
      → IsValid k r
      → size_sub wr r.read ≤ size_sub r.write r.read
      → Pops blank k r n (size_sub wr r.read) (pop_seen wr r n)
  unfolding pop_seen
  pop_seen-Pops blank k wr r n v behind = elim (Bool-cases (leb n (size_sub wr r.read))) [
    | inl fits ↦
        rw (test true fits, fits)
          (
            popped-IsValid blank k r v n (room fits),
            refl,
            (
              fetch r r.read n,
              refl,
              ap length (fetch-window blank k r v n (room fits)) ∙ length-tabulate n _,
              contents-split blank k r v n (room fits)
                  ∙ ap (λ t. t ++ contents blank k (record r { read = size_add r.read n }))
                      (sym (fetch-window blank k r v n (room fits))),
            ),
          )
    | inr big ↦ rw (test false big, big) (v, refl, (refl, refl))
  ]
    where
      test : (b : Bool) → leb n (size_sub wr r.read) ≡ b → ltb (size_sub wr r.read) n ≡ not b
      test b e = ground arith

      room : leb n (size_sub wr r.read) ≡ true → n ≤ size_sub r.write r.read
      room e = ground arith

  -- Two copies that make up at most `n`.
  length-copies :
      (n m : ℕ) (xs ys : List A) → length (take (min n m) xs ++ take (n - min n m) ys) ≤ n
  length-copies n m xs ys = omega (
    arith,
    length-append (take (min n m) xs) (take (n - min n m) ys),
    length-take (min n m) xs,
    length-take (n - min n m) ys,
  )

  -- At most `n` elements, if any.
  abbrev pub Within : ℕ → Option (List A) → Type 0
  Within n none = Unit {0}
  Within n (some xs) = length xs ≤ n

  -- A pop never yields more elements than it was asked for, even from a ring that is not valid.
  pub try_pop-Within : (r : Ring A) (n : ℕ) → Within n (try_pop r n).0
  unfolding try_pop pop_seen fetch
  try_pop-Within r n =
      if-both (λ (o : Option (List A) × Ring A). Within n o.0) (ltb (size_sub r.write r.read) n) _ _
        tt
        (length-copies n (size_sub (capacity r) (bit_and r.read r.mask))
          (drop (bit_and r.read r.mask) r.buffer) r.buffer)
