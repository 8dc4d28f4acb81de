-- ===== src/Sender/Resample/Interpolation.antt =====
-- The frames that the resampler of src/raop_sender.cpp produces, against those in its buffer.
use airplay2_sender_cpp.Base.{
  false, if-split, ℕ, zero, suc, ◌+◌, ◌*◌, ◌/◌, ◌^◌, ◌<◌, ◌≡◌, arith, leb, leb_false→lt, List, [],
  ◌∷◌, get_or, length,
}
use airplay2_sender_cpp.Doubles
use airplay2_sender_cpp.Doubles.{Double}
use airplay2_sender_cpp.Doubles.Arithmetic.{fraction, add-unsigned}
use airplay2_sender_cpp.Sender.Resample.{level, produce}
use airplay2_sender_cpp.Sender.Resample.Between.{Between, IsFraction, lerp-Between}

abbrev pub AreSamples : List ℕ → Type 0
AreSamples [] = Unit {0}
AreSamples (x ∷ xs) = (x < 2 ^ 16) × AreSamples xs

sample_at : (xs : List ℕ) (i : ℕ) → AreSamples xs → get_or xs i 0 < 2 ^ 16
sample_at [] i h = omega arith
sample_at (x ∷ xs) zero h = h.0
sample_at (x ∷ xs) (suc i) h = sample_at xs i h.1

-- The sample `x` lies between those at two places of the buffer.
abbrev pub Joins : List ℕ → ℕ → ℕ → ℕ → Type 0
Joins buf at next x = Between (level (get_or buf at 0)) (level (get_or buf next 0)) (level x)

-- Each frame lies between two neighbours in the buffer, in both channels.
pub data Interpolates (buf : List ℕ) : List ℕ → Type 0 where
  ended : Interpolates buf []
  frame :
      (i x y : ℕ) (rest : List ℕ)
      → i + 1 < length buf / 2
      → Joins buf (i * 2) (i * 2 + 2) x
      → Joins buf (i * 2 + 1) (i * 2 + 3) y
      → Interpolates buf rest
      → Interpolates buf (x ∷ (y ∷ rest))

-- For 16-bit samples in a buffer of less than 2^53 of them, and a phase and a step that are not
-- negative: each frame that the loop of the resampler produces lies, in each channel, between the
-- samples of two neighbouring frames of the buffer.
pub produce-Interpolates :
    (wanted : ℕ) (step : Double) (buf : List ℕ) (phase : Double)
    → AreSamples buf
    → length buf < 2 ^ 53
    → step.negative ≡ false
    → phase.negative ≡ false
    → Interpolates buf (produce wanted step buf phase).0
unfolding produce
produce-Interpolates zero step buf phase h size s p = ended
produce-Interpolates (suc wanted) step buf phase h size s p =
    let i0 = Doubles.trunc phase in
    let frac = Doubles.sub phase (Doubles.of_nat i0) in
    let rest =
      produce-Interpolates wanted step buf (Doubles.add phase step) h size s
        (add-unsigned phase step p s) in
    if-split (λ (o : List ℕ × Double). Interpolates buf o.0) (leb (length buf / 2) (i0 + 1)) _ _
      (λ e. ended)
      (λ e.
        let within : i0 + 1 < length buf / 2 = leb_false→lt (length buf / 2) (i0 + 1) e in
        let part : IsFraction frac = fraction phase p (omega (arith, within, size)) in
        frame i0 _ _ _ within
          (lerp-Between (get_or buf (i0 * 2) 0) (get_or buf (i0 * 2 + 2) 0) frac
            (sample_at buf (i0 * 2) h) part)
          (lerp-Between (get_or buf (i0 * 2 + 1) 0) (get_or buf (i0 * 2 + 3) 0) frac
            (sample_at buf (i0 * 2 + 1) h) part)
          rest)
