-- ===== src/Doubles.antt =====
-- The doubles of C++ as src/raop_sender.cpp computes with them: finite numbers of 53 bits, rounded to
-- the nearest one, halves to the even one. Every finite double is a multiple of 2^-1074, the least one.
pub mod Arithmetic
pub mod Limits
pub mod Rounding
pub mod Tests
use airplay2_sender_cpp.Base.{
  ℕ, zero, suc, ◌+◌, ◌-◌, ◌*◌, ◌/◌, ◌%◌, ◌^◌, Bool, true, false, not, ◌&&◌, ◌||◌, ltb, ◌==◌,
  if◌then◌else◌,
}

-- The units of 2^-1074 in a one.
unfoldable pub scale : ℕ
scale = 2 ^ 1074

pub record Double : Type 0 where
  pub negative : Bool
  pub units : ℕ

-- The whole number nearest to `n / d`, of two the even one.
unfoldable pub half_even : ℕ → ℕ → ℕ
half_even n d =
    let q = n / d in
    let twice = 2 * (n % d) in if ltb twice d || ((twice == d) && (q % 2 == 0)) then q else suc q

-- The number of 53 bits that is nearest to `n / d`, for a quotient below 2 ^ (53 + fuel).
unfoldable pub nearest : ℕ → ℕ → ℕ → ℕ
unfolding half_even
nearest zero n d = half_even n d
nearest (suc fuel) n d = elim (ltb (n / d) (2 ^ 53)) [
  | true ↦ half_even n d
  | false ↦ 2 * nearest fuel n (2 * d)
]

-- A quotient of units as a double. The greatest double has less than 2^2098 of them.
unfoldable pub fit : ℕ → ℕ → ℕ
unfolding nearest
fit n d = nearest 2045 n d

-- `double(n)` for a whole number with a sign.
unfoldable pub of_int : Bool → ℕ → Double
unfolding fit scale
of_int neg n = record { negative = neg; units = fit (n * scale) 1 }

unfoldable pub of_nat : ℕ → Double
unfolding of_int
of_nat n = of_int false n

unfoldable pub negate : Double → Double
negate x = record { negative = not x.negative; units = x.units }

unfoldable pub same_sign : Bool → Bool → Bool
same_sign true b = b
same_sign false b = not b

-- `x < y`
unfoldable pub less : Double → Double → Bool
less x y =
    if x.negative
    then (if y.negative then ltb y.units x.units else not ((x.units == 0) && (y.units == 0)))
    else if y.negative
    then false
    else ltb x.units y.units

-- `x + y`
unfoldable pub add : Double → Double → Double
unfolding fit same_sign
add x y =
    if same_sign x.negative y.negative
    then record { negative = x.negative; units = fit (x.units + y.units) 1 }
    else if ltb x.units y.units
    then record { negative = y.negative; units = fit (y.units - x.units) 1 }
    else record {
      negative = x.negative && not (x.units == y.units);
      units = fit (x.units - y.units) 1;
    }

-- `x - y`
unfoldable pub sub : Double → Double → Double
unfolding add negate
sub x y = add x (negate y)

-- `x * y`
unfoldable pub mul : Double → Double → Double
unfolding fit scale same_sign
mul x y = record {
  negative = not (same_sign x.negative y.negative);
  units = fit (x.units * y.units) scale;
}

-- `x / y`, for `y` other than zero
unfoldable pub div : Double → Double → Double
unfolding fit scale same_sign
div x y = record {
  negative = not (same_sign x.negative y.negative);
  units = fit (x.units * scale) y.units;
}

-- The whole part of the magnitude.
unfoldable pub trunc : Double → ℕ
unfolding scale
trunc x = x.units / scale
