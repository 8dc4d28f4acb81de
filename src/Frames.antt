-- ===== src/Frames.antt =====
-- The HomeKit frames of the encrypted channels, as `writeRtsp_`, `onRtspReadyRead_` and
-- `onEventReadyRead_` of src/raop_sender.cpp write and read them: two bytes of length, the cipher
-- text and a tag of 16 bytes, under a counter for each direction.
pub mod Fragments
pub mod RoundTrip
pub mod Tampering
mod Tests
use airplay2_sender_cpp.Base.{
  ℕ, zero, suc, ◌+◌, ◌-◌, ◌*◌, ◌%◌, ◌^◌, Bool, true, false, List, [], ◌∷◌, ◌++◌, Option, none, some,
  ◌>>=◌, Bytes, length, take, drop, ltb, min, if◌then◌else◌, le_bytes,
}
use airplay2_sender_cpp.Crypto.Backend.{Backend}
use airplay2_sender_cpp.Crypto.Aead.{counter_nonce8, encrypt, decrypt}

-- `++ctr` on a `uint64_t`
abbrev pub next_counter : ℕ → ℕ
next_counter ctr = (ctr + 1) % 2 ^ 64

-- What a read has made of the bytes: the plain text, the bytes of a frame that is still arriving,
-- the counter, and whether a frame did not authenticate.
pub record Unframed : Type 0 where
  pub plain : Bytes
  pub rest : Bytes
  pub ctr : ℕ
  pub failed : Bool

-- A decrypted frame in front of what follows.
abbrev pub after_frame : Bytes → Unframed → Unframed
after_frame text u = record u { plain = text ++ u.plain }

module _ (b : Backend) (key : Bytes) where
  -- One frame around at most 1024 bytes; `none` is the exception of a wrong key size.
  unfoldable pub frame : ℕ → Bytes → Option Bytes
  frame ctr chunk = do
    let lp = le_bytes 2 (length chunk)
    ct ← encrypt b key (counter_nonce8 ctr) chunk lp
    some (lp ++ ct)

  -- The loop of `writeRtsp_`, with the counter after it. The number bounds the rounds.
  unfoldable pub frames_loop : ℕ → ℕ → Bytes → Option (Bytes × ℕ)
  unfolding frame
  frames_loop zero ctr text = some ([], ctr)
  frames_loop (suc fuel) ctr [] = some ([], ctr)
  frames_loop (suc fuel) ctr (x ∷ xs) = do
    first ← frame ctr (take 1024 (x ∷ xs))
    (more, last) ← frames_loop fuel (next_counter ctr) (drop 1024 (x ∷ xs))
    some (first ++ more, last)

  unfoldable pub frames : ℕ → Bytes → Option (Bytes × ℕ)
  unfolding frames_loop
  frames ctr text = frames_loop (length text) ctr text

  unfoldable pub opened : Option Bytes → ℕ → Bytes → Unframed → Unframed
  opened none ctr buf more = record {
    plain = [];
    rest = buf;
    ctr = next_counter ctr;
    failed = true;
  }
  opened (some text) ctr buf more = after_frame text more

  -- The loop that decrypts whole frames. The number bounds the rounds.
  unfoldable pub unframe_loop : ℕ → ℕ → Bytes → Unframed
  unfolding opened
  unframe_loop zero ctr buf = record { plain = []; rest = buf; ctr = ctr; failed = false }
  unframe_loop (suc fuel) ctr [] = record { plain = []; rest = []; ctr = ctr; failed = false }
  unframe_loop (suc fuel) ctr (x ∷ []) = record {
    plain = [];
    rest = x ∷ [];
    ctr = ctr;
    failed = false;
  }
  unframe_loop (suc fuel) ctr (x ∷ (y ∷ body)) =
      let len = x + y * 256 in
      let text = decrypt b key (counter_nonce8 ctr) (take (len + 16) body) (x ∷ (y ∷ [])) in
      let more = unframe_loop fuel (next_counter ctr) (drop (len + 16) body) in
      if ltb (length body) (len + 16)
      then record { plain = []; rest = x ∷ (y ∷ body); ctr = ctr; failed = false }
      else opened text ctr (x ∷ (y ∷ body)) more

  unfoldable pub unframe : ℕ → Bytes → Unframed
  unfolding unframe_loop
  unframe ctr buf = unframe_loop (length buf) ctr buf
