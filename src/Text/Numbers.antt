-- ===== src/Text/Numbers.antt =====
-- Numbers in text: `parseInt`, `toInt`, `toUInt`, `std::to_string` and `hexUpper` of
-- src/raop_sender.cpp.
pub mod RoundTrip
use airplay2_sender_cpp.Base.{
  ℕ, zero, suc, ◌+◌, ◌-◌, ◌*◌, ◌/◌, ◌%◌, ◌^◌, Bool, true, false, ◌||◌, [], ◌∷◌, Option, none, some,
  Bytes, codes, leb, ltb, ◌==◌, if◌then◌else◌, get_or,
}

-- `negsuc n` is -(n + 1).
pub data ℤ : Type 0 where
  pos : ℕ → ℤ
  negsuc : ℕ → ℤ

-- The digits from the left; `none` on junk or if the value would pass 2 ^ 63 - 1.
unfoldable pub parse_digits : ℕ → Bytes → Option ℕ
parse_digits v [] = some v
parse_digits v (c ∷ cs) =
    let more = parse_digits (v * 10 + (c - b'0')) cs in
    if ltb c b'0' || ltb b'9' c
    then none
    else if ltb ((0x7FFFFFFFFFFFFFFF - (c - b'0')) / 10) v
    then none
    else more

some_digits : Bytes → Option ℕ
unfolding parse_digits
some_digits [] = none
some_digits (c ∷ cs) = parse_digits 0 (c ∷ cs)

signed : Bool → Option ℕ → Option ℤ
signed neg none = none
signed neg (some zero) = some (pos 0)
signed false (some (suc n)) = some (pos (suc n))
signed true (some (suc n)) = some (negsuc n)

-- `parseInt`; `none` is `ok == false`.
unfoldable pub parse_int : Bytes → Option ℤ
unfolding some_digits signed
parse_int [] = none
parse_int (c ∷ cs) =
    if c == b'-'
    then signed true (some_digits cs)
    else if c == b'+'
    then signed false (some_digits cs)
    else signed false (some_digits (c ∷ cs))

-- `int(v)`: the low 32 bits as a signed number.
low_int : ℕ → ℤ
low_int m = if ltb m (2 ^ 31) then pos m else negsuc (2 ^ 32 - m - 1)

narrow : ℤ → ℤ
unfolding low_int
narrow (pos n) = low_int (n % 2 ^ 32)
narrow (negsuc n) = low_int ((2 ^ 63 - 1 - n) % 2 ^ 32)

-- `toInt(s)`
int_or_zero : Option ℤ → ℤ
unfolding narrow
int_or_zero none = pos 0
int_or_zero (some v) = narrow v

unfoldable pub to_int : Bytes → ℤ
unfolding parse_int int_or_zero
to_int s = int_or_zero (parse_int s)

-- `toInt(s, ok)`, where `none` is `ok == false`.
in_int : Option ℤ → Option ℤ
in_int none = none
in_int (some (pos n)) = if ltb 0x7FFFFFFF n then none else some (pos n)
in_int (some (negsuc n)) = if ltb 0x7FFFFFFF n then none else some (negsuc n)

unfoldable pub to_int? : Bytes → Option ℤ
unfolding parse_int in_int
to_int? s = in_int (parse_int s)

-- `toUInt`
in_uint : Option ℤ → ℕ
in_uint (some (pos n)) = if leb n 0xFFFFFFFF then n else 0
in_uint _ = 0

unfoldable pub to_uint : Bytes → ℕ
unfolding parse_int in_uint
to_uint s = in_uint (parse_int s)

-- The digits of `n` to a base, in front of `acc`; the number bounds them.
unfoldable pub digits_loop : ℕ → ℕ → ℕ → Bytes → Bytes
digits_loop base zero n acc = acc
digits_loop base (suc fuel) n acc =
    let acc' = get_or (codes "0123456789ABCDEF") (n % base) 0 ∷ acc in
    elim (ltb n base) [ true ↦ acc' | false ↦ digits_loop base fuel (n / base) acc' ]

-- `std::to_string` of an unsigned number of at most 64 bits, which has at most 20 digits.
unfoldable pub to_string : ℕ → Bytes
unfolding digits_loop
to_string n = digits_loop 10 20 n []

-- `hexUpper`, at most 16 digits.
unfoldable pub hex_upper : ℕ → Bytes
unfolding digits_loop
hex_upper v = digits_loop 16 16 v []
