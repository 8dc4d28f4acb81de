-- ===== src/Frames/RoundTrip.antt =====
-- The reader of the encrypted channel undoes the writer.
use airplay2_sender_cpp.Base.{
  append-nil, le→ltb, ℕ, zero, suc, ◌+◌, ◌*◌, ◌%◌, ◌/◌, ◌≤◌, ◌<◌, ◌≡◌, refl, ap, sym, ◌∙◌, false,
  [], ◌∷◌, ◌++◌, Option, some, Bytes, length, take, drop, ltb, le_bytes, arith, length-append,
  length-take, length-drop, take-append-drop, append_assoc, take-length_append, drop-length_append,
}
use native.Mathlib.Nat.{le_refl}
use airplay2_sender_cpp.Crypto.Backend.{Backend, CipherLaws}
use airplay2_sender_cpp.Crypto.Aead.{counter_nonce8, decrypt, decrypt-encrypt}
use airplay2_sender_cpp.Frames.Fragments.{unframe_loop-enough}
use airplay2_sender_cpp.Frames.{
  after_frame, next_counter, frame, frames_loop, frames, unframe_loop, unframe,
}

module _ (b : Backend) (laws : CipherLaws b) (key : Bytes) (key_size : length key ≡ 32) where
  read_frame :
      (fuel ctr : ℕ) (chunk ct rest : Bytes)
      → length chunk < 65536
      → length ct ≡ length chunk + 16
      → decrypt b key (counter_nonce8 ctr) ct (le_bytes 2 (length chunk)) ≡ some chunk
      → unframe_loop b key (suc fuel) ctr (le_bytes 2 (length chunk) ++ (ct ++ rest))
        ≡ after_frame chunk (unframe_loop b key fuel (next_counter ctr) rest)
  unfolding unframe_loop
  read_frame fuel ctr chunk ct rest h size d =
      rw (len, take-length_append ct rest, drop-length_append ct rest, d, whole) refl
    where
      len : length chunk % 256 + length chunk / 256 % 256 * 256 + 16 ≡ length ct
      len = omega arith

      whole : ltb (length (ct ++ rest)) (length ct) ≡ false
      whole = le→ltb _ _ (omega (arith, length-append ct rest))

  -- One frame is read as its chunk.
  unframe_loop-frame :
      (ctr : ℕ) (chunk : Bytes)
      → length chunk < 65536
      → (f : Bytes) × (frame b key ctr chunk ≡ some f)
        × (length f ≡ length chunk + 18)
        × ((fuel : ℕ) (rest : Bytes)
            → unframe_loop b key (suc fuel) ctr (f ++ rest)
              ≡ after_frame chunk (unframe_loop b key fuel (next_counter ctr) rest))
  unfolding frame
  unframe_loop-frame ctr chunk h =
      let (ct, e, size, d) =
        decrypt-encrypt b laws key (counter_nonce8 ctr) chunk (le_bytes 2 (length chunk))
          key_size in
      (
        le_bytes 2 (length chunk) ++ ct,
        rw e refl,
        omega (arith, size),
        λ fuel rest. read_frame fuel ctr chunk ct rest h size d,
      )

  -- What the writer makes of a text, and what the reader makes of that.
  abbrev Reads : ℕ → Bytes → Bytes → Option (Bytes × ℕ) → Type 0
  Reads ctr text rest written =
      (wire : Bytes) × (last : ℕ) × (written ≡ some (wire, last))
      × ((fuel : ℕ)
          → length (wire ++ rest) ≤ fuel
          → unframe_loop b key fuel ctr (wire ++ rest)
            ≡ after_frame text (unframe_loop b key (length rest) last rest))

  frames_loop-Reads :
      (n ctr : ℕ) (text rest : Bytes)
      → length text ≤ n
      → Reads ctr text rest (frames_loop b key n ctr text)
  unfolding frames_loop
  frames_loop-Reads zero ctr [] rest h = (
    [],
    ctr,
    refl,
    λ fuel hf. unframe_loop-enough b key fuel (length rest) ctr rest hf (le_refl _),
  )
  frames_loop-Reads (suc n) ctr [] rest h = (
    [],
    ctr,
    refl,
    λ fuel hf. unframe_loop-enough b key fuel (length rest) ctr rest hf (le_refl _),
  )
  frames_loop-Reads zero ctr (x ∷ xs) rest h = absurd (omega arith)
  frames_loop-Reads (suc n) ctr (x ∷ xs) rest h =
      let (f, ef, sf, rf) = unframe_loop-frame ctr (take 1024 (x ∷ xs)) short in
      let (wire, last, e, reads) =
        frames_loop-Reads n (next_counter ctr) (drop 1024 (x ∷ xs)) rest fewer in
      (f ++ wire, last, rw (ef, e) refl, λ fuel hf. go f wire last sf rf reads fuel hf)
    where
      short : length (take 1024 (x ∷ xs)) < 65536
      short = omega (arith, length-take 1024 (x ∷ xs))

      fewer : length (drop 1024 (x ∷ xs)) ≤ n
      fewer = omega (arith, length-drop 1024 (x ∷ xs))

      go :
          (f wire : Bytes) (last : ℕ)
          → length f ≡ length (take 1024 (x ∷ xs)) + 18
          → ((fuel : ℕ) (rest : Bytes)
              → unframe_loop b key (suc fuel) ctr (f ++ rest)
                ≡ after_frame
                    (take 1024 (x ∷ xs))
                    (unframe_loop b key fuel (next_counter ctr) rest))
          → ((fuel : ℕ)
              → length (wire ++ rest) ≤ fuel
              → unframe_loop b key fuel (next_counter ctr) (wire ++ rest)
                ≡ after_frame (drop 1024 (x ∷ xs)) (unframe_loop b key (length rest) last rest))
          → (fuel : ℕ) → length ((f ++ wire) ++ rest) ≤ fuel
          → unframe_loop b key fuel ctr ((f ++ wire) ++ rest)
            ≡ after_frame (x ∷ xs) (unframe_loop b key (length rest) last rest)
      go f wire last sf rf reads zero hf =
          absurd
            (omega (arith, length-append f (wire ++ rest), ap length (append_assoc f wire rest)))
      go f wire last sf rf reads (suc fuel) hf =
          ap (unframe_loop b key (suc fuel) ctr) (append_assoc f wire rest)
          ∙ (rf fuel (wire ++ rest)
              ∙ (ap (after_frame (take 1024 (x ∷ xs))) (
                    reads fuel (
                      omega (
                        arith,
                        length-append f (wire ++ rest),
                        ap length (append_assoc f wire rest),
                      )))
                  ∙ ap (λ t. record (unframe_loop b key (length rest) last rest) { plain = t })
                      (sym (
                          append_assoc (take 1024 (x ∷ xs)) (drop 1024 (x ∷ xs))
                            (unframe_loop b key (length rest) last rest).plain)
                        ∙ ap (λ t. t ++ (unframe_loop b key (length rest) last rest).plain)
                            (take-append-drop 1024 (x ∷ xs)))))

  -- Under a key of 32 bytes, with Mbed TLS doing what it documents: writing a text of any length
  -- yields frames that the reader turns back into that text, with nothing left over, no failure,
  -- and its counter where the writer's stands.
  pub unframe-frames :
      (ctr : ℕ) (text : Bytes)
      → (wire : Bytes) × (last : ℕ) × (frames b key ctr text ≡ some (wire, last))
        × (unframe b key ctr wire ≡ record { plain = text; rest = []; ctr = last; failed = false })
  unfolding frames unframe
  unframe-frames ctr text =
      let (wire, last, e, reads) = frames_loop-Reads (length text) ctr text [] (le_refl _) in
      (wire, last, e, whole wire last reads)
    where
      whole :
          (wire : Bytes) (last : ℕ)
          → ((fuel : ℕ)
              → length (wire ++ []) ≤ fuel
              → unframe_loop b key fuel ctr (wire ++ [])
                ≡ after_frame text (unframe_loop b key 0 last []))
          → unframe_loop b key (length wire) ctr wire
            ≡ record { plain = text; rest = []; ctr = last; failed = false }
      whole wire last reads =
          ap (λ w. unframe_loop b key (length w) ctr w) (sym (append-nil wire))
          ∙ (reads (length (wire ++ [])) (le_refl _)
              ∙ ap (λ t. record (unframe_loop b key 0 last []) { plain = t }) (append-nil text))
