-- ===== src/Creds/Json.antt =====
-- The JSON strings of src/raop_creds.h: `jsonEscapeInto` and the `JsonCursor`. The text from the
-- cursor on stands for the cursor.
pub mod Strings
use airplay2_sender_cpp.Base.{
  sym, ◌∙◌, append_assoc, append-nil, length-append, all_below_sound, all_below, ap, ◌≢◌, not, ℕ,
  zero, suc, ◌+◌, ◌-◌, ◌*◌, ◌/◌, ◌%◌, ◌^◌, ◌≤◌, ◌<◌, ◌≡◌, refl, Bool, true, false, ◌&&◌, ◌||◌, List,
  [], ◌∷◌, ◌++◌, Option, none, some, Bytes, IsBytes, bit_and, bit_or, leb, ltb, ◌==◌, if◌then◌else◌,
  arith, length,
}
use airplay2_sender_cpp.Creds.Hex.{some_of_gives, gives, hex_digit, nib}

abbrev pub quote : ℕ
quote = 0x22

abbrev pub backslash : ℕ
backslash = 0x5C

-- `jsonEscapeInto`, one character.
unfoldable pub escape_char : ℕ → Bytes
escape_char c =
    if c == quote
    then backslash ∷ (quote ∷ [])
    else if c == backslash
    then backslash ∷ (backslash ∷ [])
    else if c == 0x0A
    then backslash ∷ (b'n' ∷ [])
    else if c == 0x0D
    then backslash ∷ (b'r' ∷ [])
    else if c == 0x09
    then backslash ∷ (b't' ∷ [])
    else if ltb c 0x20
    then backslash
      ∷ (b'u'
          ∷ (b'0'
              ∷ (b'0' ∷ (hex_digit (bit_and (c / 16) 0x0F) ∷ (hex_digit (bit_and c 0x0F) ∷ [])))))
    else c ∷ []

unfoldable pub escape : Bytes → Bytes
unfolding escape_char
escape [] = []
escape (c ∷ cs) = escape_char c ++ escape cs

unfoldable pub is_ws : ℕ → Bool
is_ws c = (c == 0x20) || (c == 0x09) || (c == 0x0A) || (c == 0x0D)

-- `ws`
unfoldable pub ws : Bytes → Bytes
unfolding is_ws
ws [] = []
ws (c ∷ cs) = if is_ws c then ws cs else c ∷ cs

unfoldable pub eat_head : ℕ → Bytes → Bool × Bytes
eat_head want [] = (false, [])
eat_head want (c ∷ cs) = if c == want then (true, cs) else (false, c ∷ cs)

-- `eat`: the answer, and the text from the cursor on, which has passed the white space anyway.
unfoldable pub eat : ℕ → Bytes → Bool × Bytes
unfolding ws eat_head
eat want s = eat_head want (ws s)

-- `cp <<= 4; cp |= h` for each of four hexadecimal digits.
unfoldable pub add_digit : Option ℕ → ℕ → Option ℕ
unfolding nib
add_digit none c = none
add_digit (some cp) c = elim (nib c) [ none ↦ none | some h ↦ some (bit_or (cp * 16) h) ]

unfoldable pub hex4 : ℕ → ℕ → ℕ → ℕ → Option ℕ
unfolding add_digit
hex4 a b c d = add_digit (add_digit (add_digit (add_digit (some 0) a) b) c) d

-- The code point in one, two or three bytes.
unfoldable pub utf8 : ℕ → Bytes
utf8 cp =
    if ltb cp 0x80
    then cp ∷ []
    else if ltb cp 0x800
    then bit_or 0xC0 (cp / 64) ∷ (bit_or 0x80 (bit_and cp 0x3F) ∷ [])
    else bit_or 0xE0 (cp / 4096)
      ∷ (bit_or 0x80 (bit_and (cp / 64) 0x3F) ∷ (bit_or 0x80 (bit_and cp 0x3F) ∷ []))

-- What the loop of `str` meets next: the closing quote, characters to append, or a fault.
pub data Lexeme : Type 0 where
  close : Bytes → Lexeme
  chars : Bytes → Bytes → Lexeme
  bad : Lexeme

unfoldable pub unicode : Option ℕ → Bytes → Lexeme
unfolding utf8
unicode none rest = bad
unicode (some cp) rest = chars (utf8 cp) rest

unfoldable pub unicode_escape : Bytes → Lexeme
unicode_escape (a ∷ (b ∷ (c ∷ (d ∷ rest)))) = unicode (hex4 a b c d) rest
unicode_escape _ = bad

-- After a backslash.
unfoldable pub escaped : Bytes → Lexeme
escaped [] = bad
escaped (e ∷ rest) =
    if e == quote
    then chars (quote ∷ []) rest
    else if e == backslash
    then chars (backslash ∷ []) rest
    else if e == b'/'
    then chars (b'/' ∷ []) rest
    else if e == b'b'
    then chars (0x08 ∷ []) rest
    else if e == b'f'
    then chars (0x0C ∷ []) rest
    else if e == b'n'
    then chars (0x0A ∷ []) rest
    else if e == b'r'
    then chars (0x0D ∷ []) rest
    else if e == b't'
    then chars (0x09 ∷ []) rest
    else if e == b'u'
    then unicode_escape rest
    else bad

unfoldable pub next : Bytes → Lexeme
unfolding escaped
next [] = bad
next (c ∷ rest) =
    if c == quote then close rest else if c == backslash then escaped rest else chars (c ∷ []) rest

-- The loop of `str`: what it has appended, and the text behind the closing quote. The number
-- bounds the rounds.
unfoldable pub str_loop : ℕ → Bytes → Bytes → Option (Bytes × Bytes)
str_loop zero out s = none
str_loop (suc fuel) out s = elim (next s) [
  | close rest ↦ some (out, rest)
  | chars cs rest ↦ str_loop fuel (out ++ cs) rest
  | bad ↦ none
]

unfoldable pub str_open : Bytes → Option (Bytes × Bytes)
unfolding str_loop next
str_open [] = none
str_open (c ∷ rest) = if c == quote then str_loop (suc (length rest)) [] rest else none

-- `str`; `none` is `false`, after which no caller looks at the cursor again.
unfoldable pub str : Bytes → Option (Bytes × Bytes)
unfolding ws str_open
str s = str_open (ws s)

-- The loop of `skipValue` over an object or array: the depth, and whether it is inside a string.
-- In a string a backslash passes over the character behind it.
unfoldable pub nested : ℕ → Bool → Bytes → Option Bytes
nested depth in_str [] = none
nested depth true (c ∷ []) = none
nested depth true (c ∷ (d ∷ rest)) =
    let skipped = nested depth true rest in
    let on = nested depth (not (c == quote)) (d ∷ rest) in if c == backslash then skipped else on
nested depth false (c ∷ rest) =
    let inside = nested depth true rest in
    let deeper = nested (depth + 1) false rest in
    let outer = nested (depth - 1) false rest in
    let on = nested depth false rest in
    if c == quote
    then inside
    else if (c == b'{') || (c == b'[')
    then deeper
    else if (c == b'}') || (c == b']')
    then (if depth - 1 == 0 then some rest else outer)
    else on

-- A number or a literal.
unfoldable pub literal : Bytes → Bytes
literal [] = []
literal (c ∷ cs) = if (c == b',') || (c == b'}') || (c == b']') then c ∷ cs else literal cs

unfoldable pub skip_head : Bytes → Option Bytes
unfolding str nested literal
skip_head [] = none
skip_head (c ∷ rest) =
    if c == quote
    then elim (str (c ∷ rest)) [ none ↦ none | some (_, r) ↦ some r ]
    else if (c == b'{') || (c == b'[')
    then nested 0 false (c ∷ rest)
    else some (literal (c ∷ rest))

-- `skipValue`
unfoldable pub skip_value : Bytes → Option Bytes
unfolding ws skip_head
skip_value s = skip_head (ws s)
