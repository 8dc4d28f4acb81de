-- ===== src/Frames/Tampering.antt =====
-- A frame that does not authenticate, behind others that do.
use airplay2_sender_cpp.Base.{
  ℕ, ◌+◌, ◌*◌, ◌≤◌, ◌≡◌, refl, ap, sym, subst, ◌∙◌, true, false, Option, none, some, [], ◌∷◌, ◌++◌,
  Bytes, length, take, le→ltb, append-nil,
}
use airplay2_sender_cpp.Crypto.Backend.{Backend, CipherLaws}
use airplay2_sender_cpp.Crypto.Aead.{decrypt, counter_nonce8}
use airplay2_sender_cpp.Frames.{
  Unframed, next_counter, after_frame, frames, opened, unframe, unframe_loop,
}
use airplay2_sender_cpp.Frames.Fragments.{unframe-append}
use airplay2_sender_cpp.Frames.RoundTrip.{unframe-frames}

abbrev written : Option (Bytes × ℕ) → Bytes × ℕ
written none = ([], 0)
written (some w) = w

module _ (b : Backend) (key : Bytes) where
  -- A whole frame at the front that decryption refuses.
  abbrev pub Refused : ℕ → ℕ → ℕ → Bytes → Type 0
  Refused ctr x y body =
      (x + y * 256 + 16 ≤ length body)
      × (decrypt b key (counter_nonce8 ctr) (take (x + y * 256 + 16) body) (x ∷ (y ∷ [])) ≡ none)

  unframe-Refused :
      (ctr x y : ℕ) (body : Bytes)
      → Refused ctr x y body
      → unframe b key ctr (x ∷ (y ∷ body))
        ≡ record { plain = []; rest = x ∷ (y ∷ body); ctr = next_counter ctr; failed = true }
  unfolding unframe unframe_loop opened
  unframe-Refused ctr x y body (whole, refused) =
      rw (le→ltb (length body) (x + y * 256 + 16) whole, refused) refl

module _ (b : Backend) (laws : CipherLaws b) (key : Bytes) (key_size : length key ≡ 32) where
  -- Good frames and then one that is refused: their text, and a failure at the bad one.
  pub unframe-tampered :
      (ctr last x y : ℕ) (text wire body : Bytes)
      → frames b key ctr text ≡ some (wire, last)
      → Refused b key last x y body
      → unframe b key ctr (wire ++ (x ∷ (y ∷ body)))
        ≡ record { plain = text; rest = x ∷ (y ∷ body); ctr = next_counter last; failed = true }
  unframe-tampered ctr last x y text wire body e bad =
      let (wire', last', e', reads) = unframe-frames b laws key key_size ctr text in
      let same : (wire', last') ≡ (wire, last) = ap written (sym e' ∙ e) in
      let good : unframe b key ctr wire
          ≡ record { plain = text; rest = []; ctr = last; failed = false } =
        subst
          (λ (w : Bytes × ℕ).
            unframe b key ctr w.0 ≡ record { plain = text; rest = []; ctr = w.1; failed = false })
          same reads in
      unframe-append b key ctr wire (x ∷ (y ∷ body)) (ap (λ (u : Unframed). u.failed) good)
      ∙ ap
          (λ (u : Unframed). after_frame u.plain (unframe b key u.ctr (u.rest ++ (x ∷ (y ∷ body)))))
          good
      ∙ ap (after_frame text) (unframe-Refused b key last x y body bad)
      ∙ ap
          (λ t. record { plain = t; rest = x ∷ (y ∷ body); ctr = next_counter last; failed = true })
          (append-nil text)
