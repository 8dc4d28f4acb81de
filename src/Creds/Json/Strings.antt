-- ===== src/Creds/Json/Strings.antt =====
-- Reading back what `jsonEscapeInto` of src/raop_creds.h has written.
use airplay2_sender_cpp.Base.{
  ℕ, zero, suc, ◌/◌, ◌≤◌, ◌<◌, ◌≡◌, ◌≢◌, refl, ap, sym, ◌∙◌, true, [], ◌∷◌, ◌++◌, Option, some,
  Bytes, IsBytes, bit_and, arith, length, append_assoc, append-nil, all_below, all_below_sound,
  length-append,
}
use airplay2_sender_cpp.Creds.Hex.{hex_digit, nib, gives, some_of_gives, IsPlain}
use airplay2_sender_cpp.Creds.Json.{
  next, chars, close, quote, backslash, escape, escape_char, unicode_escape, unicode, utf8, hex4,
  str, str_loop,
}

-- A character that needs no escape, as a lexeme.
next-plain :
    (c : ℕ) (rest : Bytes) → c ≢ quote → c ≢ backslash → next (c ∷ rest) ≡ chars (c ∷ []) rest
unfolding next
next-plain c rest a b = ground arith

utf8-ascii : (c : ℕ) → c < 0x80 → utf8 c ≡ c ∷ []
unfolding utf8
utf8-ascii c h = ground arith

abbrev digits_of : ℕ → Option ℕ
digits_of c = hex4 b'0' b'0' (hex_digit (bit_and (c / 16) 0x0F)) (hex_digit (bit_and c 0x0F))

control_table : all_below 32 (λ c. gives (digits_of c) c) ≡ true
unfolding gives hex4 nib hex_digit
control_table = refl

-- The four digits of a control character are its code point.
code_point : (c : ℕ) → c < 0x20 → digits_of c ≡ some c
code_point c h =
    some_of_gives (digits_of c) c
      (all_below_sound 32 (λ c. gives (digits_of c) c) c control_table h)

control_digits :
    (c : ℕ) (rest : Bytes)
    → c < 0x20
    → unicode_escape
        (b'0' ∷ (b'0' ∷ (hex_digit (bit_and (c / 16) 0x0F) ∷ (hex_digit (bit_and c 0x0F) ∷ rest))))
      ≡ chars (c ∷ []) rest
unfolding unicode_escape unicode
control_digits c rest h =
    rw (code_point c h, unicode) (ap (λ t. chars t rest) (utf8-ascii c (omega arith)))

-- Each escape is read back as the one character.
next-escape_char :
    (c : ℕ) (rest : Bytes) → c < 256 → next (escape_char c ++ rest) ≡ chars (c ∷ []) rest
unfolding next escape_char
next-escape_char c rest h = ground (arith, control_digits c rest)

length-escape_char : (c : ℕ) → 1 ≤ length (escape_char c)
unfolding escape_char
length-escape_char c = ground arith

next_close : (rest : Bytes) → next (quote ∷ rest) ≡ close rest
unfolding next
next_close rest = refl

length-escape : (s : Bytes) → length s ≤ length (escape s)
unfolding escape
length-escape [] = omega arith
length-escape (c ∷ cs) =
    omega (arith, length-append (escape_char c) (escape cs), length-escape_char c, length-escape cs)

-- The loop reads an escaped string back, with one round for each character and one to close.
str_loop-escape :
    (fuel : ℕ) (out s rest : Bytes)
    → length s < fuel
    → IsBytes s
    → str_loop fuel out (escape s ++ quote ∷ rest) ≡ some (out ++ s, rest)
unfolding str_loop escape
str_loop-escape zero out s rest h b = absurd (omega arith)
str_loop-escape (suc fuel) out [] rest h b =
    rw (next_close rest, str_loop) (ap (λ t. some (t, rest)) (sym (append-nil out)))
str_loop-escape (suc fuel) out (c ∷ cs) rest h b =
    rw (append_assoc (escape_char c) (escape cs) (quote ∷ rest)) (
      rw (next-escape_char c (escape cs ++ quote ∷ rest) b.0, str_loop)
        (str_loop-escape fuel (out ++ c ∷ []) cs rest (omega arith) b.1
          ∙ ap (λ t. some (t, rest)) (append_assoc out (c ∷ []) cs)))

-- A string that the writer has escaped is read back as it was, and the cursor stands behind it.
pub str-escape :
    (s rest : Bytes) → IsBytes s → str (quote ∷ (escape s ++ quote ∷ rest)) ≡ some (s, rest)
unfolding str
str-escape s rest b =
    str_loop-escape (suc (length (escape s ++ quote ∷ rest))) [] s rest
      (omega (arith, length-append (escape s) (quote ∷ rest), length-escape s)) b

-- A plain text is its own escape.
pub escape-plain : (s : Bytes) → IsPlain s → escape s ≡ s
unfolding escape
escape-plain [] h = refl
escape-plain (c ∷ cs) h = ground (arith, escape-plain cs h.4)
