-- ===== src/Sender/Volume.antt =====
-- The volume of src/raop_sender.cpp: from a percentage to decibels and to text.
pub mod Range
pub mod Tests
use airplay2_sender_cpp.Base.{
  zero, suc, [], ◌∷◌, ℕ, ◌+◌, ◌-◌, ◌*◌, ◌/◌, ◌%◌, ◌^◌, ◌++◌, Bytes, codes, ltb, ◌==◌, if◌then◌else◌,
  Bool, true, false, not, ◌&&◌,
}
use airplay2_sender_cpp.Doubles
use airplay2_sender_cpp.Doubles.{Double}
use airplay2_sender_cpp.Text.Numbers.{to_string}

-- `std::clamp(pct, 0.0, 100.0)`
unfoldable pub clamped : Double → Double
clamped pct =
    if Doubles.less pct (Doubles.of_nat 0)
    then Doubles.of_nat 0
    else if Doubles.less (Doubles.of_nat 100) pct
    then Doubles.of_nat 100
    else pct

-- The attenuation in dB.
unfoldable pub attenuation : Double → Double
attenuation pct =
    Doubles.div (Doubles.sub (Doubles.mul pct (Doubles.of_nat 3)) (Doubles.of_nat 300))
      (Doubles.of_nat 10)

-- `dbfs` of `setVolume`
unfoldable pub dbfs : Double → Double
unfolding clamped attenuation
dbfs pct =
    let p = clamped pct in
    if Doubles.less p (Doubles.div (Doubles.of_nat 1) (Doubles.of_nat 100))
    then Doubles.of_int true 144
    else attenuation p

-- The `n` last digits of a number.
last_digits : ℕ → ℕ → Bytes
last_digits zero m = []
last_digits (suc n) m = last_digits n (m / 10) ++ ((b'0' + m % 10) ∷ [])

-- `fixed6`: `%.6f` rounds the exact value, halves to the even digit.
unfoldable pub fixed6 : Double → Bytes
unfolding last_digits
fixed6 x =
    let millionths = Doubles.half_even (x.units * 1000000) Doubles.scale in
    (if x.negative then codes "-" else [])
    ++ (to_string (millionths / 1000000) ++ (codes "." ++ last_digits 6 millionths))
