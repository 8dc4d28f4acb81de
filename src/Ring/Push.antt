-- ===== src/Ring/Push.antt =====
-- `tryPush` appends to the queue that the ring holds, or refuses and changes nothing.
use airplay2_sender_cpp.Base.{
  append-nil, inl, inr, not, leb, get_or-drop_sub, ℕ, ◌+◌, ◌-◌, ◌%◌, ◌^◌, ◌≤◌, ◌<◌, ◌≡◌, refl, ap,
  ap₂, sym, ◌∙◌, List, [], ◌++◌, length, get_or, take, drop, min, arith, pow_pos, mod_step, Bool,
  true, false, if◌then◌else◌, ltb, length-append, length-take, length-drop, get_or-append,
  get_or-take, get_or-drop, tabulate-append, tabulate-eq, tabulate-get_or, Bool-cases,
}
use native.Mathlib.Nat.{mod-lt, add_assoc}
use airplay2_sender_cpp.Ring.{
  copy_around, Ring, capacity, size_sub, size_add, copy_in, store, push_seen,
}
use airplay2_sender_cpp.Ring.Contents.{
  IsValid, window, contents, pow_le_word, capacity-pow, bit_and-place, write_place,
}

module _ {A : Type 0} where
  length-copy_in :
      (buf : List A) (pos : ℕ) (xs : List A)
      → pos + length xs ≤ length buf
      → length (copy_in buf pos xs) ≡ length buf
  unfolding copy_in
  length-copy_in buf pos xs h = omega (
    arith,
    length-append (take pos buf) (xs ++ drop (pos + length xs) buf),
    length-append xs (drop (pos + length xs) buf),
    length-take pos buf,
    length-drop (pos + length xs) buf,
  )

  -- What stands at `j` after a copy of `xs` to `pos`.
  get_or-copy_in :
      (buf : List A) (pos : ℕ) (xs : List A) (j : ℕ) (d : A)
      → pos + length xs ≤ length buf
      → get_or (copy_in buf pos xs) j d ≡ (
          if ltb j pos
          then get_or buf j d
          else if ltb j (pos + length xs)
          then get_or xs (j - pos) d
          else get_or buf j d)
  unfolding copy_in
  get_or-copy_in buf pos xs j d h = ground (
    arith,
    get_or-append (take pos buf) (xs ++ drop (pos + length xs) buf) j d,
    get_or-append xs (drop (pos + length xs) buf) (j - pos) d,
    length-take pos buf,
    get_or-take pos buf j d,
    get_or-drop_sub (pos + length xs) buf j d,
    ap (λ t. get_or (drop (pos + length xs) buf) t d)
        (let e : j - pos - length xs ≡ j - (pos + length xs) = omega arith in e),
  )

  -- What stands at `j` after the two copies: the elements lie from `pos` on, going round.
  get_or-copy_around :
      (buf : List A) (pos p : ℕ) (xs : List A) (j : ℕ) (d : A)
      → pos < p
      → length buf ≡ p
      → length xs ≤ p
      → j < p
      → get_or (copy_around buf pos (min (length xs) (p - pos)) xs) j d ≡ (
          if ltb (j + p) (pos + length xs)
          then get_or xs (j + p - pos) d
          else if ltb j pos
          then get_or buf j d
          else if ltb j (pos + length xs)
          then get_or xs (j - pos) d
          else get_or buf j d)
  unfolding copy_around
  get_or-copy_around buf pos p xs j d hp hb hx hj = ground (
    arith,
    get_or-copy_in (copy_in buf pos (take first xs)) 0 (drop first xs) j d,
    get_or-copy_in buf pos (take first xs) j d,
    length-copy_in buf pos (take first xs),
    length-take first xs,
    length-drop first xs,
    get_or-take first xs (j - pos) d,
    get_or-drop first xs j d,
    ap (λ t. get_or xs t d) (let e : p - pos + j ≡ j + p - pos = omega arith in e),
  )
    where
      first : ℕ
      first = min (length xs) (p - pos)

  length-copy_around :
      (buf : List A) (pos p : ℕ) (xs : List A)
      → pos < p
      → length buf ≡ p
      → length xs ≤ p
      → length (copy_around buf pos (min (length xs) (p - pos)) xs) ≡ p
  unfolding copy_around
  length-copy_around buf pos p xs hp hb hx = omega (
    arith,
    length-copy_in (copy_in buf pos (take first xs)) 0 (drop first xs),
    length-copy_in buf pos (take first xs),
    length-take first xs,
    length-drop first xs,
  )
    where
      first : ℕ
      first = min (length xs) (p - pos)

  store-copy_around :
      (k : ℕ) (r : Ring A) (xs : List A)
      → IsValid k r
      → store r r.write xs
        ≡ copy_around r.buffer (r.write % 2 ^ k) (min (length xs) (2 ^ k - r.write % 2 ^ k)) xs
  unfolding store
  store-copy_around k r xs v =
      rw (bit_and-place k r r.write v, capacity-pow k r v)
        (ap (λ t. copy_around r.buffer (r.write % 2 ^ k) (min (length xs) t) xs) no_wrap)
    where
      no_wrap : size_sub (2 ^ k) (r.write % 2 ^ k) ≡ 2 ^ k - r.write % 2 ^ k
      no_wrap = omega (arith, mod-lt r.write (pow_pos k), pow_le_word k v.small)

  module _ (blank : A) (k : ℕ) (r : Ring A) (xs : List A) (v : IsValid k r) where
    abbrev fill : ℕ
    fill = size_sub r.write r.read

    module _ (fits : fill + length xs ≤ 2 ^ k) where
      abbrev stored : List A
      stored = store r r.write xs

      at_store :
          (j : ℕ)
          → j < 2 ^ k
          → get_or stored j blank ≡ (
              if ltb (j + 2 ^ k) (r.write % 2 ^ k + length xs)
              then get_or xs (j + 2 ^ k - r.write % 2 ^ k) blank
              else if ltb j (r.write % 2 ^ k)
              then get_or r.buffer j blank
              else if ltb j (r.write % 2 ^ k + length xs)
              then get_or xs (j - r.write % 2 ^ k) blank
              else get_or r.buffer j blank)
      at_store j hj = rw (store-copy_around k r xs v) (
          get_or-copy_around r.buffer (r.write % 2 ^ k) (2 ^ k) xs j blank
            (mod-lt r.write (pow_pos k)) v.storage (omega arith) hj)

      -- The elements that were there stay where they are.
      old_kept :
          (i : ℕ)
          → i < fill
          → get_or stored ((r.read + i) % 2 ^ k) blank
            ≡ get_or r.buffer ((r.read + i) % 2 ^ k) blank
      old_kept i hi = ground (
        arith,
        at_store ((r.read + i) % 2 ^ k) (mod-lt (r.read + i) (pow_pos k)),
        write_place k r.write r.read v.small v.write_in v.read_in,
        mod_step r.read fill (2 ^ k) (pow_pos k),
        mod_step r.read i (2 ^ k) (pow_pos k),
        mod-lt r.read (pow_pos k),
      )

      -- The new ones stand behind them.
      new_stored :
          (i : ℕ)
          → i < length xs
          → get_or stored ((r.read + (fill + i)) % 2 ^ k) blank ≡ get_or xs i blank
      new_stored i hi = ground (
        arith,
        at_store ((r.read + (fill + i)) % 2 ^ k) (mod-lt (r.read + (fill + i)) (pow_pos k)),
        write_place k r.write r.read v.small v.write_in v.read_in,
        ap (λ t. t % 2 ^ k) (add_assoc r.read fill i),
        mod_step (r.read + fill) i (2 ^ k) (pow_pos k),
        mod-lt r.write (pow_pos k),
      )

      fill-grows : size_sub (size_add r.write (length xs)) r.read ≡ fill + length xs
      fill-grows = omega (arith, pow_le_word k v.small)

      stored-contents :
          contents blank k (record r { buffer = stored; write = size_add r.write (length xs) })
          ≡ contents blank k r ++ xs
      stored-contents =
          ap (window blank k stored r.read) fill-grows
          ∙ (tabulate-append fill (length xs) (λ i. get_or stored ((r.read + i) % 2 ^ k) blank)
              ∙ ap₂ ◌++◌ (tabulate-eq fill _ _ old_kept)
                  (tabulate-eq (length xs) _ _ new_stored ∙ tabulate-get_or xs blank))

      stored-IsValid :
          IsValid k (record r { buffer = stored; write = size_add r.write (length xs) })
      stored-IsValid = record {
        small = v.small;
        mask_eq = v.mask_eq;
        storage =
            ap length (store-copy_around k r xs v)
            ∙ length-copy_around r.buffer (r.write % 2 ^ k) (2 ^ k) xs (mod-lt r.write (pow_pos k))
                v.storage (omega arith);
        read_in = v.read_in;
        write_in = omega arith;
        held = omega (arith, fill-grows);
      }

  -- What a push must do to a queue of at most `room` free places.
  abbrev pub Pushes : A → ℕ → Ring A → List A → ℕ → Bool × Ring A → Type 0
  Pushes blank k r xs room (done, r') =
      (done ≡ leb (length xs) room)
      × IsValid k r'
      × (contents blank k r' ≡ contents blank k r ++ (if done then xs else []))
      × (r'.read ≡ r.read)

  -- Whatever value of `read_` the producer has loaded, as long as it is one that the reader has
  -- left behind: the push is refused exactly if the elements exceed the room seen, and then
  -- nothing changes; otherwise they are appended. The invariant holds afterwards.
  pub push_seen-Pushes :
      (blank : A) (k rd : ℕ) (r : Ring A) (xs : List A)
      → IsValid k r
      → size_sub r.write r.read ≤ size_sub r.write rd
      → size_sub r.write rd ≤ 2 ^ k
      → Pushes blank k r xs (2 ^ k - size_sub r.write rd) (push_seen rd r xs)
  unfolding push_seen
  push_seen-Pushes blank k rd r xs v behind bound =
      elim (Bool-cases (leb (length xs) (2 ^ k - size_sub r.write rd))) [
        | inl fits ↦ rw (test true fits) (
          sym fits,
          stored-IsValid blank k r xs v (room fits),
          stored-contents blank k r xs v (room fits),
          refl,
        )
        | inr big ↦ rw (test false big) (sym big, v, sym (append-nil _), refl)
      ]
    where
      test :
          (b : Bool)
          → leb (length xs) (2 ^ k - size_sub r.write rd) ≡ b
          → ltb (size_sub (capacity r) (size_sub r.write rd)) (length xs) ≡ not b
      test b e = ground (arith, capacity-pow k r v, pow_le_word k v.small)

      room :
          leb (length xs) (2 ^ k - size_sub r.write rd) ≡ true
          → size_sub r.write r.read + length xs ≤ 2 ^ k
      room e = ground arith
