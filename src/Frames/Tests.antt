-- ===== src/Frames/Tests.antt =====
-- Runs of the frames over the sample back end.
use airplay2_sender_cpp.Base.{ℕ, ◌≡◌, refl, false, [], ◌∷◌, ◌++◌, some, Bytes, codes, replicate}
use airplay2_sender_cpp.Crypto.Samples.{sample_backend, sample_laws}
use airplay2_sender_cpp.Crypto.Aead.{decrypt}
use airplay2_sender_cpp.Frames.{after_frame, frames, unframe}
use airplay2_sender_cpp.Frames.RoundTrip.{unframe-frames}
use airplay2_sender_cpp.Frames.Fragments.{unframe-append}

abbrev sample_key : Bytes
sample_key = replicate 32 1

unframe-frames_example :
    (wire : Bytes) × (last : ℕ) × (frames sample_backend sample_key 7 (codes "OPTIONS *")
      ≡ some (wire, last))
    × (unframe sample_backend sample_key 7 wire
        ≡ record { plain = codes "OPTIONS *"; rest = []; ctr = last; failed = false })
unframe-frames_example =
    unframe-frames sample_backend sample_laws sample_key refl 7 (codes "OPTIONS *")

-- A whole frame around two bytes, and the length of another.
abbrev first_read : Bytes
first_read = 2 ∷ (0 ∷ (8 ∷ (9 ∷ (replicate 16 0 ++ (1 ∷ [])))))

abbrev second_read : Bytes
second_read = 0 ∷ (5 ∷ replicate 16 0)

unframe-append_example :
    unframe sample_backend sample_key 0 (first_read ++ second_read)
    ≡ after_frame (unframe sample_backend sample_key 0 first_read).plain (
        unframe sample_backend sample_key
          (unframe sample_backend sample_key 0 first_read).ctr
          ((unframe sample_backend sample_key 0 first_read).rest ++ second_read))
unfolding unframe decrypt
unframe-append_example = unframe-append sample_backend sample_key 0 first_read second_read refl
