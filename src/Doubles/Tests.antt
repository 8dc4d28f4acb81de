-- ===== src/Doubles/Tests.antt =====
-- Runs of the arithmetic, with the results of a processor.
use airplay2_sender_cpp.Base.{◌*◌, ◌^◌, ◌≡◌, refl, true}
use airplay2_sender_cpp.Doubles.{
  scale, half_even, nearest, fit, of_int, of_nat, negate, add, sub, div,
}

-- 0.1 + 0.2 is 0.30000000000000004.
tenths :
    (add (div (of_nat 1) (of_nat 10)) (div (of_nat 2) (of_nat 10))).units
    ≡ 1351079888211149 * 2 ^ 1022
unfolding add div of_nat of_int fit nearest half_even scale
tenths = refl

difference_below_zero : sub (of_nat 3) (of_nat 5) ≡ of_int true 2
unfolding sub negate add of_nat of_int fit nearest half_even scale
difference_below_zero = refl
