-- ===== src/Text/Numbers/RoundTrip.antt =====
-- `parseInt` of src/raop_sender.cpp reads back what `std::to_string` has written.
use airplay2_sender_cpp.Base.{
  ℕ, zero, suc, ◌+◌, ◌-◌, ◌*◌, ◌/◌, ◌%◌, ◌^◌, ◌≤◌, ◌<◌, ◌≡◌, refl, ap, ◌∙◌, true, false, [], ◌∷◌,
  some, Bytes, codes, arith, ltb, ◌==◌, ==_iff, get_or, all_below, all_below_sound, le→ltb, ltb→lt,
  ltb_false→le, Bool-cases, inl, inr,
}
use native.Mathlib.Nat.{pow-succ'}
use airplay2_sender_cpp.Text.Numbers.{
  pos, parse_digits, some_digits, signed, parse_int, digits_loop, to_string,
}

abbrev max_value : ℕ
max_value = 0x7FFFFFFFFFFFFFFF

digit_table : all_below 10 (λ d. get_or (codes "0123456789ABCDEF") d 0 == d + 48) ≡ true
digit_table = refl

digit_char : (d : ℕ) → d < 10 → get_or (codes "0123456789ABCDEF") d 0 ≡ d + 48
digit_char d h =
    (==_iff _ _).0
      (all_below_sound 10 (λ c. get_or (codes "0123456789ABCDEF") c 0 == c + 48) d digit_table h)

parse_digits-digit :
    (v d : ℕ) (cs : Bytes)
    → d < 10
    → v * 10 + d ≤ max_value
    → parse_digits v ((d + 48) ∷ cs) ≡ parse_digits (v * 10 + d) cs
unfolding parse_digits
parse_digits-digit v d cs h small =
    let e : d + 48 - 48 ≡ d = omega arith in
    rw
      (
        le→ltb (d + 48) 48 (omega arith),
        le→ltb 57 (d + 48) (omega arith),
        e,
        le→ltb ((0x7FFFFFFFFFFFFFFF - d) / 10) v (omega arith),
      )
      refl

fuel_left : (fuel n : ℕ) → n < 10 ^ suc fuel → 10 ≤ n → 0 < fuel
fuel_left zero n h ge = absurd (omega arith)
fuel_left (suc fuel) n h ge = omega arith

-- Reading the digits of a number comes to that number in front of what follows.
parse_digits-digits_loop :
    (fuel n : ℕ) (acc : Bytes)
    → n < 10 ^ fuel
    → n ≤ max_value
    → 0 < fuel
    → parse_digits 0 (digits_loop 10 fuel n acc) ≡ parse_digits n acc
unfolding digits_loop
parse_digits-digits_loop zero n acc h small some_fuel = absurd (omega arith)
parse_digits-digits_loop (suc fuel) n acc h small some_fuel = elim (Bool-cases (ltb n 10)) [
  | inl e ↦
      let lt : n < 10 = ltb→lt n 10 e in
      let m : n % 10 ≡ n = omega arith in
      let z : 0 * 10 + n ≡ n = omega arith in
      rw (e, digits_loop, m, digit_char n lt)
        (parse_digits-digit 0 n acc lt (omega arith) ∙ ap (λ t. parse_digits t acc) z)
  | inr e ↦
      let ge : 10 ≤ n = ltb_false→le n 10 e in
      let whole : n / 10 * 10 + n % 10 ≡ n = omega arith in
      rw (e, digits_loop, digit_char (n % 10) (omega arith))
        (parse_digits-digits_loop fuel (n / 10) ((n % 10 + 48) ∷ acc)
            (omega (arith, pow-succ' 10 fuel)) (omega arith) (fuel_left fuel n h ge)
          ∙ (parse_digits-digit (n / 10) (n % 10) acc (omega arith) (omega arith)
              ∙ ap (λ t. parse_digits t acc) whole))
]

-- A text that starts with no sign.
abbrev Starts : Bytes → Type 0
Starts [] = ⊥
Starts (c ∷ cs) = 48 ≤ c

digits_loop-Starts : (fuel n : ℕ) (acc : Bytes) → Starts acc → Starts (digits_loop 10 fuel n acc)
unfolding digits_loop
digits_loop-Starts zero n acc h = h
digits_loop-Starts (suc fuel) n acc h = elim (Bool-cases (ltb n 10)) [
  | inl e ↦ rw (e, digits_loop, digit_char (n % 10) (omega arith)) (omega arith)
  | inr e ↦
      rw (e, digits_loop, digit_char (n % 10) (omega arith))
        (digits_loop-Starts fuel (n / 10) ((n % 10 + 48) ∷ acc) (omega arith))
]

digits_loop-Starts-suc : (fuel n : ℕ) (acc : Bytes) → Starts (digits_loop 10 (suc fuel) n acc)
unfolding digits_loop
digits_loop-Starts-suc fuel n acc = elim (Bool-cases (ltb n 10)) [
  | inl e ↦ rw (e, digits_loop, digit_char (n % 10) (omega arith)) (omega arith)
  | inr e ↦
      rw (e, digits_loop, digit_char (n % 10) (omega arith))
        (digits_loop-Starts fuel (n / 10) ((n % 10 + 48) ∷ acc) (omega arith))
]

signed-false : (n : ℕ) → signed false (some n) ≡ some (pos n)
unfolding signed
signed-false zero = refl
signed-false (suc n) = refl

-- A text without a sign is read as its digits.
parse_int-Starts :
    (s : Bytes) (n : ℕ) → Starts s → parse_digits 0 s ≡ some n → parse_int s ≡ some (pos n)
unfolding parse_int some_digits
parse_int-Starts [] n h e = absurd h
parse_int-Starts (c ∷ cs) n h e =
    rw (ne c 45 (omega arith), ne c 43 (omega arith), e) (signed-false n)
  where
    ne : (c d : ℕ) → d < c → (c == d) ≡ false
    ne c d h = ground arith

-- A number of at most 2 ^ 63 - 1 that was printed is read back as it was.
pub parse_int-to_string : (n : ℕ) → n ≤ 0x7FFFFFFFFFFFFFFF → parse_int (to_string n) ≡ some (pos n)
unfolding to_string parse_digits
parse_int-to_string n h =
    parse_int-Starts (digits_loop 10 20 n []) n (digits_loop-Starts-suc 19 n [])
      (parse_digits-digits_loop 20 n [] (omega arith) h (omega arith))
