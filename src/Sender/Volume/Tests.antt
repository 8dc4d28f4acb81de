-- ===== src/Sender/Volume/Tests.antt =====
-- Texts of volumes.
use airplay2_sender_cpp.Base.{◌≡◌, refl, codes}
use airplay2_sender_cpp.Doubles.{
  scale, half_even, nearest, fit, of_int, of_nat, negate, add, sub, mul, div, less,
}
use airplay2_sender_cpp.Text.Numbers.{to_string}
use airplay2_sender_cpp.Sender.Volume.Range.{InRange, dbfs-InRange}
use airplay2_sender_cpp.Sender.Volume.{clamped, attenuation, dbfs, fixed6}

-- At 100 % there is no sign.
full : fixed6 (dbfs (of_nat 100)) ≡ codes "0.000000"
unfolding fixed6 dbfs clamped attenuation less div mul sub add negate of_nat of_int fit nearest
    half_even scale to_string
full = refl

third : fixed6 (dbfs (div (of_nat 100) (of_nat 3))) ≡ codes "-20.000000"
unfolding fixed6 dbfs clamped attenuation less div mul sub add negate of_nat of_int fit nearest
    half_even scale to_string
third = refl

seventh : fixed6 (dbfs (div (of_nat 100) (of_nat 7))) ≡ codes "-25.714286"
unfolding fixed6 dbfs clamped attenuation less div mul sub add negate of_nat of_int fit nearest
    half_even scale to_string
seventh = refl

silent : fixed6 (dbfs (of_nat 0)) ≡ codes "-144.000000"
unfolding fixed6 dbfs clamped attenuation less div mul sub add negate of_nat of_int fit nearest
    half_even scale to_string
silent = refl

dbfs-InRange_example : InRange (dbfs (div (of_nat 200) (of_nat 3)))
dbfs-InRange_example = dbfs-InRange (div (of_nat 200) (of_nat 3))
