-- ===== src/Plist/Decode.antt =====
-- `bplist::Decoder` and `bplist::decode` of src/airplay_crypto.cpp. `ok` is handed on from read to
-- read. No position passes 2 ^ 64: each is checked against the size of the data, or is at most
-- 2 ^ 15 + 9 bytes behind one that was.
use airplay2_sender_cpp.Base.{
  ℕ, zero, suc, ◌+◌, ◌-◌, ◌*◌, ◌/◌, ◌%◌, ◌^◌, Bool, true, false, not, ◌&&◌, ◌||◌, List, [], ◌∷◌,
  Option, none, some, Bytes, codes, bytes_eq, bit_and, bit_or, leb, ltb, ◌==◌, get_or, length, take,
  drop, if◌then◌else◌,
}
use airplay2_sender_cpp.Plist.{
  Value, Values, Dict, as_str, str, bytes, boolean, integer, real, array, object, no_values, item,
  no_entries, entry,
}

read_loop : ℕ → ℕ → Bytes → Option ℕ
read_loop zero v d = some v
read_loop (suc n) v [] = none
read_loop (suc n) v (x ∷ xs) = read_loop n ((v * 256 + x) % 2 ^ 64) xs

-- `readBE`, where `none` is `ok = false`.
unfoldable pub read_be : Bytes → ℕ → ℕ → Option ℕ
unfolding read_loop
read_be d at n = read_loop n 0 (drop at d)

-- What a read returns and leaves in `ok`.
unfoldable pub value_of : Option ℕ → ℕ
value_of none = 0
value_of (some v) = v

unfoldable pub still : Bool → Option ℕ → Bool
still ok none = false
still ok (some v) = ok

-- The decoder after `parseTrailer`.
pub record Table : Type 0 where
  pub d : Bytes
  pub ref_size : ℕ
  pub num_objects : ℕ
  pub offsets : List ℕ

read_offsets : Bytes → ℕ → ℕ → ℕ → Option (List ℕ)
unfolding read_be
read_offsets d size at zero = some []
read_offsets d size at (suc n) = elim (read_be d at size) [
  | none ↦ none
  | some off ↦ elim (read_offsets d size (at + size) n) [
    | none ↦ none
    | some offs ↦ some (off ∷ offs)
  ]
]

valid_size : ℕ → Bool
valid_size s = (s == 1) || ((s == 2) || ((s == 4) || (s == 8)))

with_offsets : Bytes → ℕ → ℕ → Option (List ℕ) → Option Table
with_offsets d ref_size n none = none
with_offsets d ref_size n (some offs) =
    some (record { d = d; ref_size = ref_size; num_objects = n; offsets = offs })

-- The checks behind the reads of the trailer, in their order.
checked : Bytes → ℕ → ℕ → Option ℕ → Option ℕ → Option Table
unfolding valid_size with_offsets read_offsets
checked d offset_size ref_size (some n) (some at) =
    if not (valid_size offset_size) || not (valid_size ref_size)
    then none
    else if ltb (length d) at
    then none
    else if ltb (length d) n
    then none
    else elim (ltb ((length d - at) / offset_size) n) [
      | true ↦ none
      | false ↦ with_offsets d ref_size n (read_offsets d offset_size at n)
    ]
checked d offset_size ref_size _ _ = none

-- `parseTrailer`
unfoldable pub parse_trailer : Bytes → Option Table
unfolding checked read_be bytes_eq
parse_trailer d =
    let tr = length d - 32 in
    if ltb (length d) 40
    then none
    else if not (bytes_eq (take 8 d) (codes "bplist00"))
    then none
    else checked d (get_or d (tr + 6) 0) (get_or d (tr + 7) 0) (read_be d (tr + 8) 8)
        (read_be d (tr + 24) 8)

-- The low bytes of `count` units of UTF-16 from `at` on, as far as there are any.
unfoldable pub low_bytes : ℕ → Bytes → Bytes
low_bytes zero d = []
low_bytes (suc n) (hi ∷ (lo ∷ d)) = lo ∷ low_bytes n d
low_bytes (suc n) _ = []

-- The bits of a `float` that is not zero, of exponent 0, as those of a `double`: the mantissa is
-- shifted until its highest bit stands.
unfoldable pub widen_small : ℕ → ℕ → ℕ → ℕ
widen_small zero m exponent = 0
widen_small (suc n) m exponent = elim (leb (2 ^ 23) m) [
  | true ↦ exponent * 2 ^ 52 + (m - 2 ^ 23) * 2 ^ 29
  | false ↦ widen_small n (m * 2) (exponent - 1)
]

-- `r = f`: the bits of a `float` as those of the `double` of the same value, a NaN a quiet one.
unfoldable pub widen : ℕ → ℕ
unfolding widen_small
widen bits =
    let sign = bits / 2 ^ 31 * 2 ^ 63 in
    let e = bits / 2 ^ 23 % 256 in
    let m = bits % 2 ^ 23 in
    if (e == 0) && (m == 0)
    then sign
    else if e == 0
    then sign + widen_small 24 m 897
    else if not (e == 255)
    then sign + (e + 896) * 2 ^ 52 + m * 2 ^ 29
    else if m == 0
    then sign + 2047 * 2 ^ 52
    else sign + 2047 * 2 ^ 52 + bit_or (m * 2 ^ 29) (2 ^ 51)

unfoldable pub real_of : ℕ → ℕ → ℕ
unfolding widen
real_of n bits = if n == 8 then bits else if n == 4 then widen (bits % 2 ^ 32) else 0

abbrev pub Result : Type 0 → Type 0
Result A = Option A × Bool

module _ (t : Table) where
  -- `readCount`: the count, the position behind it and `ok`.
  unfoldable pub read_count : ℕ → ℕ → Bool → ℕ × ℕ × Bool
  unfolding read_be value_of still
  read_count lo pos ok =
      let n = 2 ^ bit_and (get_or t.d pos 0) 0x0F in
      let c = read_be t.d (suc pos) n in
      if not (lo == 0x0F)
      then (lo, pos, ok)
      else if leb (length t.d) pos
      then (0, pos, false)
      else (value_of c, suc pos + n, still ok c)

  -- Whether `count` bytes stand behind `pos`.
  unfoldable pub fits : ℕ → ℕ → Bool
  fits pos count = leb count (length t.d) && leb (pos + count) (length t.d)

  unfoldable pub item_front : Value → Result Values → Result Values
  item_front v (none, ok) = (none, ok)
  item_front v (some vs, ok) = (some (item v vs), ok)

  unfoldable pub entry_front : Bytes → Value → Result Dict → Result Dict
  entry_front k v (none, ok) = (none, ok)
  entry_front k v (some d, ok) = (some (entry k v d), ok)

  -- The loops over the references of an array and of a dictionary, given the decoder of one level
  -- further down.
  unfoldable pub items : (ℕ → Bool → Result Value) → ℕ → ℕ → Bool → Result Values
  unfolding item_front read_be value_of still
  items obj at zero ok = (some no_values, ok)
  items obj at (suc n) ok =
      let r = read_be t.d at t.ref_size in
      let (child, ok') = obj (value_of r) (still ok r) in
      elim child [ none ↦ (none, ok') | some v ↦ item_front v (items obj (at + t.ref_size) n ok') ]

  unfoldable pub entries : (ℕ → Bool → Result Value) → ℕ → ℕ → ℕ → Bool → Result Dict
  unfolding entry_front read_be value_of still as_str
  entries obj at vals zero ok = (some no_entries, ok)
  entries obj at vals (suc n) ok =
      let kr = read_be t.d at t.ref_size in
      let vr = read_be t.d vals t.ref_size in
      let (k, ok') = obj (value_of kr) (still (still ok kr) vr) in
      let (v, ok'') = obj (value_of vr) ok' in
      elim k [
        | none ↦ (none, ok'')
        | some key ↦ elim v [
          | none ↦ (none, ok'')
          | some val ↦
              entry_front (as_str key) val
                (entries obj (at + t.ref_size) (vals + t.ref_size) n ok'')
        ]
      ]

  unfoldable pub as_array : Result Values → Result Value
  as_array (none, ok) = (none, ok)
  as_array (some vs, ok) = (some (array vs), ok)

  unfoldable pub as_object : Result Dict → Result Value
  as_object (none, ok) = (none, ok)
  as_object (some d, ok) = (some (object d), ok)

  -- The object at `pos`, behind its marker.
  unfoldable pub body : (ℕ → Bool → Result Value) → ℕ → ℕ → Bool → Result Value
  unfolding items entries as_array as_object read_count fits low_bytes real_of value_of still
  body obj marker pos ok =
      let hi = bit_and marker 0xF0 in
      let lo = bit_and marker 0x0F in
      let n = 2 ^ lo in
      let word = read_be t.d pos n in
      let (cnt, at, ok') = read_count lo pos ok in
      let span = take cnt (drop at t.d) in
      let refs = t.ref_size in
      elim (hi == 0x00) [
        | true ↦ (some (boolean (marker == 0x09)), ok)
        | false ↦ elim (hi == 0x10) [
          | true ↦ (some (integer (value_of word)), still ok word)
          | false ↦ elim (hi == 0x20) [
            | true ↦ (some (real (real_of n (value_of word))), still ok word)
            | false ↦ elim (hi == 0x40) [
              | true ↦ if fits at cnt then (some (bytes span), ok') else (none, ok')
              | false ↦ elim (hi == 0x50) [
                | true ↦ if fits at cnt then (some (str span), ok') else (none, ok')
                | false ↦ elim (hi == 0x60) [
                  | true ↦
                      if ltb (length t.d) cnt
                      then (none, ok')
                      else (some (str (low_bytes cnt (drop at t.d))), ok')
                  | false ↦ elim (hi == 0xA0) [
                    | true ↦
                        elim (ok'
                          && (leb cnt t.num_objects && leb (at + cnt * refs) (length t.d))) [
                            | true ↦ as_array (items obj at cnt ok')
                            | false ↦ (none, ok')
                          ]
                    | false ↦ elim (hi == 0xD0) [
                      | true ↦
                          elim (ok'
                            && (leb cnt t.num_objects && leb (at + 2 * cnt * refs) (length t.d))) [
                              | true ↦ as_object (entries obj at (at + cnt * refs) cnt ok')
                              | false ↦ (none, ok')
                            ]
                      | false ↦ (none, ok)
                    ]
                  ]
                ]
              ]
            ]
          ]
        ]
      ]

  -- `object`, for `fuel` levels.
  unfoldable pub object_at : ℕ → ℕ → Bool → Result Value
  unfolding body
  object_at zero ref ok = (none, ok)
  object_at (suc fuel) ref ok =
      let pos = get_or t.offsets ref 0 in
      elim (ltb ref t.num_objects && ltb pos (length t.d)) [
        | true ↦ body (object_at fuel) (get_or t.d pos 0) (suc pos) ok
        | false ↦ (none, ok)
      ]

-- Depths 0 to 32.
root : Option Table → Option Value
unfolding object_at
root none = none
root (some t) = (object_at t 33 0 true).0

-- `decode`
unfoldable pub decode : Bytes → Option Value
unfolding root parse_trailer
decode d = root (parse_trailer d)
