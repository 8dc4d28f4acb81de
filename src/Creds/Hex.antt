-- ===== src/Creds/Hex.antt =====
-- `raopHexEncode` and `raopHexDecode` of src/raop_creds.h.
use airplay2_sender_cpp.Base.{
  ◌≢◌, ◌||◌, ℕ, ◌+◌, ◌-◌, ◌*◌, ◌/◌, ◌%◌, ◌≤◌, ◌<◌, ◌≡◌, refl, Bool, true, false, ◌&&◌, [], ◌∷◌,
  Option, none, some, Bytes, IsBytes, codes, get_or, bit_and, bit_or, leb, ◌==◌, if◌then◌else◌,
  arith, all_below, all_below_sound, bit_and_mask, bit_or_above, ==_iff, ◌∙◌, ap,
}

-- `kHex[n]`
unfoldable pub hex_digit : ℕ → ℕ
hex_digit n = get_or (codes "0123456789abcdef") n 0

unfoldable pub hex_encode : Bytes → Bytes
unfolding hex_digit
hex_encode [] = []
hex_encode (x ∷ bytes) = hex_digit (x / 16) ∷ (hex_digit (bit_and x 0x0F) ∷ hex_encode bytes)

-- `nib`, where `none` is -1.
unfoldable pub nib : ℕ → Option ℕ
nib c =
    if leb b'0' c && leb c b'9'
    then some (c - b'0')
    else if leb b'a' c && leb c b'f'
    then some (c - b'a' + 10)
    else if leb b'A' c && leb c b'F'
    then some (c - b'A' + 10)
    else none

-- The two characters of one byte: `uint8_t((hi << 4) | lo)`.
unfoldable pub hex_pair : ℕ → ℕ → Option ℕ
hex_pair a b = elim (nib a) [
  | none ↦ none
  | some hi ↦ elim (nib b) [ none ↦ none | some lo ↦ some (bit_or (hi * 16) lo % 256) ]
]

cons_byte : Option ℕ → Option Bytes → Option Bytes
cons_byte none rest = none
cons_byte (some b) none = none
cons_byte (some b) (some bs) = some (b ∷ bs)

-- An odd length is refused, also where the characters before are hexadecimal digits.
unfoldable pub hex_decode : Bytes → Option Bytes
unfolding hex_pair cons_byte
hex_decode [] = some []
hex_decode (a ∷ []) = none
hex_decode (a ∷ (b ∷ rest)) = cons_byte (hex_pair a b) (hex_decode rest)

unfoldable pub gives : Option ℕ → ℕ → Bool
gives none n = false
gives (some m) n = m == n

pub some_of_gives : (o : Option ℕ) (n : ℕ) → gives o n ≡ true → o ≡ some n
unfolding gives
some_of_gives none n h = cc
some_of_gives (some m) n h = ap some ((==_iff m n).0 h)

nib_table : all_below 16 (λ n. gives (nib (hex_digit n)) n) ≡ true
unfolding gives nib hex_digit
nib_table = refl

-- `nib` reads what `kHex` writes.
pub nib-hex_digit : (n : ℕ) → n < 16 → nib (hex_digit n) ≡ some n
nib-hex_digit n h =
    some_of_gives (nib (hex_digit n)) n
      (all_below_sound 16 (λ n. gives (nib (hex_digit n)) n) n nib_table h)

pub hex_pair-hex_digit :
    (x : ℕ) → x < 256 → hex_pair (hex_digit (x / 16)) (hex_digit (bit_and x 0x0F)) ≡ some x
unfolding hex_pair
hex_pair-hex_digit x h = rw (bit_and_mask 4 x) (
    rw (nib-hex_digit (x / 16) (omega arith), nib-hex_digit (x % 16) (omega arith), hex_pair)
      (ap some (ap (λ t. t % 256) (bit_or_above 4 (x / 16) (x % 16) (omega arith)) ∙ omega arith)))

-- Decoding undoes encoding, on bytes.
pub hex_decode-hex_encode :
    (bytes : Bytes) → IsBytes bytes → hex_decode (hex_encode bytes) ≡ some bytes
unfolding hex_decode hex_encode
hex_decode-hex_encode [] h = refl
hex_decode-hex_encode (x ∷ bytes) h =
    rw (hex_pair-hex_digit x h.0, hex_decode-hex_encode bytes h.1) refl

-- Every character is one that a JSON string carries as it is: no quote, no backslash, no control.
abbrev pub IsPlain : Bytes → Type 0
IsPlain [] = Unit {0}
IsPlain (c ∷ cs) = (0x20 ≤ c) × (c < 128) × (c ≢ 0x22) × (c ≢ 0x5C) × IsPlain cs

plain_table :
    all_below 16 (λ n.
      leb 0x30 (hex_digit n)
      && (leb (hex_digit n) 0x39 || (leb 0x61 (hex_digit n) && leb (hex_digit n) 0x66)))
    ≡ true
unfolding hex_digit
plain_table = refl

hex_digit-plain :
    (n : ℕ) → n < 16 → let c = hex_digit n in (0x20 ≤ c) × (c < 128) × (c ≢ 0x22) × (c ≢ 0x5C)
hex_digit-plain n h = ground (
  arith,
  all_below_sound 16
      (λ n.
        leb 0x30 (hex_digit n)
        && (leb (hex_digit n) 0x39 || (leb 0x61 (hex_digit n) && leb (hex_digit n) 0x66)))
      n plain_table h,
)

pub hex_encode-IsPlain : (bytes : Bytes) → IsBytes bytes → IsPlain (hex_encode bytes)
unfolding hex_encode
hex_encode-IsPlain [] h = tt
hex_encode-IsPlain (x ∷ bytes) h =
    let (a, b, c, d) = hex_digit-plain (x / 16) (omega arith) in
    let (a', b', c', d') = hex_digit-plain (bit_and x 15) (omega (arith, bit_and_mask 4 x)) in
    (a, b, c, d, (a', b', c', d', hex_encode-IsPlain bytes h.1))
