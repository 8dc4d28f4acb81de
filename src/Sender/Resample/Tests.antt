-- ===== src/Sender/Resample/Tests.antt =====
-- Runs of the resampler from 48000 Hz, with the results of a processor.
use airplay2_sender_cpp.Base.{◌*◌, ◌^◌, ◌≡◌, refl, List, ℕ, ◌∷◌, [], some, arith}
use airplay2_sender_cpp.Ring.{create, try_push}
use airplay2_sender_cpp.Doubles.{
  Double, scale, half_even, nearest, fit, of_int, of_nat, negate, add, sub, mul, div, trunc,
}
use airplay2_sender_cpp.Sender.Calls.{new_sender}
use airplay2_sender_cpp.Sender.Resample.{
  Stream, of_sample, difference, to_sample, lerp, produce, compact, fill_frames,
}
use airplay2_sender_cpp.Sender.Resample.Interpolation.{Interpolates, produce-Interpolates}
use airplay2_sender_cpp.Sender.Resample.Sizes.{Fills, fill_frames-Fills}

-- Five frames.
abbrev samples : List ℕ
samples = 100 ∷ (65436 ∷ (200 ∷ (65236 ∷ (32768 ∷ (32767 ∷ (5 ∷ (6 ∷ (7 ∷ (8 ∷ [])))))))))

abbrev made : List ℕ × Double
made = produce 8 (div (of_nat 48000) (of_nat 44100)) samples (of_nat 0)

produce-starved : made.0 ≡ 100 ∷ (65436 ∷ (62821 ∷ (2624 ∷ (38565 ∷ (26972 ∷ (5 ∷ (6 ∷ [])))))))
unfolding produce lerp of_sample difference to_sample trunc sub negate add mul div of_nat of_int fit
    nearest half_even scale
produce-starved = refl

-- The phase is rebased to the frame that is kept.
compact-made : (compact samples made.1).1.units ≡ 398277518066779 * 2 ^ 1024
unfolding compact produce lerp of_sample difference to_sample trunc sub negate add mul div of_nat
    of_int fit nearest half_even scale
compact-made = refl

-- A stream at 48000 Hz with those five frames in its ring.
abbrev fed : Stream
fed = record (new_sender.stream) {
  ring = some (try_push (create 0 64) samples).1;
  input = record (new_sender.stream.input) { input_rate = 48000 };
}

fill_frames-Fills_example : Fills 3 fed (fill_frames 3 fed)
fill_frames-Fills_example = fill_frames-Fills 3 fed (refl, omega arith)

produce-Interpolates_example :
    Interpolates samples (produce 8 (div (of_nat 48000) (of_nat 44100)) samples (of_nat 0)).0
unfolding div of_nat of_int
produce-Interpolates_example =
    produce-Interpolates 8 (div (of_nat 48000) (of_nat 44100)) samples (of_nat 0) (ground arith)
      (omega arith) refl refl
