-- ===== src/Frames/Fragments.antt =====
-- How the bytes of the encrypted channel are cut up on their way makes no difference.
use airplay2_sender_cpp.Base.{
  drop-append_of_le, take-append_of_le, le→ltb, ltb_false→le, Bool-cases, ℕ, zero, suc, ◌+◌, ◌*◌,
  ◌≤◌, ◌≡◌, refl, ap, false, [], ◌∷◌, ◌++◌, Option, none, some, Bytes, length, take, drop, ltb,
  if◌then◌else◌, arith, drop-append_of_le, length-append, length-drop, append_assoc, inl, inr,
}
use native.Mathlib.Nat.{le_refl}
use airplay2_sender_cpp.Crypto.Backend.{Backend}
use airplay2_sender_cpp.Crypto.Aead.{counter_nonce8, decrypt}
use airplay2_sender_cpp.Frames.{Unframed, after_frame, next_counter, unframe_loop, unframe, opened}

module _ (b : Backend) (key : Bytes) where
  -- More rounds than bytes make no difference.
  pub unframe_loop-enough :
      (f g ctr : ℕ) (buf : Bytes)
      → length buf ≤ f
      → length buf ≤ g
      → unframe_loop b key f ctr buf ≡ unframe_loop b key g ctr buf
  unfolding unframe_loop
  unframe_loop-enough zero zero ctr buf hf hg = refl
  unframe_loop-enough zero (suc g) ctr [] hf hg = refl
  unframe_loop-enough zero (suc g) ctr (x ∷ xs) hf hg = absurd (omega arith)
  unframe_loop-enough (suc f) zero ctr [] hf hg = refl
  unframe_loop-enough (suc f) zero ctr (x ∷ xs) hf hg = absurd (omega arith)
  unframe_loop-enough (suc f) (suc g) ctr [] hf hg = refl
  unframe_loop-enough (suc f) (suc g) ctr (x ∷ []) hf hg = refl
  unframe_loop-enough (suc f) (suc g) ctr (x ∷ (y ∷ body)) hf hg =
      ap
        (λ more.
          if ltb (length body) (x + y * 256 + 16)
          then record { plain = []; rest = x ∷ (y ∷ body); ctr = ctr; failed = false }
          else opened b key
              (decrypt b key (counter_nonce8 ctr) (take (x + y * 256 + 16) body) (x ∷ (y ∷ []))) ctr
              (x ∷ (y ∷ body)) more)
        (unframe_loop-enough f g (next_counter ctr) (drop (x + y * 256 + 16) body)
          (omega (arith, length-drop (x + y * 256 + 16) body))
          (omega (arith, length-drop (x + y * 256 + 16) body)))

  -- A read of `x`, then of what is left with `y` behind it, as one read of both.
  abbrev Joins : Bytes → ℕ → Bytes → Unframed → Type 0
  Joins x ctr y u =
      u.failed ≡ false
      → unframe_loop b key (length (x ++ y)) ctr (x ++ y)
        ≡ after_frame u.plain (unframe_loop b key (length (u.rest ++ y)) u.ctr (u.rest ++ y))

  unframe_loop-Joins :
      (g ctr : ℕ) (x y : Bytes) → length x ≤ g → Joins x ctr y (unframe_loop b key g ctr x)
  unfolding unframe_loop
  unframe_loop-Joins zero ctr [] y hg = λ ok. refl
  unframe_loop-Joins (suc g) ctr [] y hg = λ ok. refl
  unframe_loop-Joins zero ctr (x ∷ xs) y hg = absurd (omega arith)
  unframe_loop-Joins (suc g) ctr (x ∷ []) y hg = λ ok. refl
  unframe_loop-Joins (suc g) ctr (x ∷ (x' ∷ body)) y hg = elim (Bool-cases (ltb (length body) n)) [
    | inl short ↦ rw short (λ ok. refl)
    | inr whole ↦ rw whole (
        joins whole (decrypt b key (counter_nonce8 ctr) (take n body) (x ∷ (x' ∷ []))) refl (
          unframe_loop-Joins g (next_counter ctr) (drop n body) y
            (omega (arith, length-drop n body))))
  ]
    where
      le-append : (m : ℕ) → ltb (length body) m ≡ false → m ≤ length (body ++ y)
      le-append m whole = omega (arith, length-append body y, ltb_false→le (length body) m whole)

      short-rest : (m : ℕ) → length (drop m body ++ y) ≤ suc (length (body ++ y))
      short-rest m =
          omega (arith, length-append body y, length-append (drop m body) y, length-drop m body)

      n : ℕ
      n = x + x' * 256 + 16

      joins :
          ltb (length body) n ≡ false
          → (d : Option Bytes)
          → decrypt b key (counter_nonce8 ctr) (take n body) (x ∷ (x' ∷ [])) ≡ d
          → Joins
              (drop n body)
              (next_counter ctr)
              y
              (unframe_loop b key g (next_counter ctr) (drop n body))
          → Joins (x ∷ (x' ∷ body)) ctr y (
              opened b key d ctr
                (x ∷ (x' ∷ body))
                (unframe_loop b key g (next_counter ctr) (drop n body)))
      joins whole none e ih = λ ok. cc
      joins whole (some text) e ih =
          let u = unframe_loop b key g (next_counter ctr) (drop n body) in
          let v = unframe_loop b key (length (u.rest ++ y)) u.ctr (u.rest ++ y) in
          λ ok.
            rw
              (
                le→ltb (length (body ++ y)) n (le-append n whole),
                take-append_of_le n body y (ltb_false→le (length body) n whole),
                e,
                opened,
                drop-append_of_le n body y (ltb_false→le (length body) n whole),
                unframe_loop-enough (suc (length (body ++ y))) (length (drop n body ++ y))
                    (next_counter ctr) (drop n body ++ y) (short-rest n) (le_refl _),
                ih ok,
                append_assoc text u.plain v.plain,
              )
              refl

  -- Bytes that arrive in two pieces are read as if they had arrived in one, unless the first
  -- piece has already failed: the same plain text, the same rest, the same counter.
  pub unframe-append :
      (ctr : ℕ) (x y : Bytes)
      → (unframe b key ctr x).failed ≡ false
      → unframe b key ctr (x ++ y)
        ≡ after_frame
            (unframe b key ctr x).plain
            (unframe b key (unframe b key ctr x).ctr ((unframe b key ctr x).rest ++ y))
  unfolding unframe
  unframe-append ctr x y ok = unframe_loop-Joins (length x) ctr x y (le_refl _) ok
