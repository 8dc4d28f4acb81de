-- ===== src/Plist/Encode.antt =====
-- `bplist::Encoder` and `bplist::encode` of src/airplay_crypto.cpp. The table is kept as the list
-- of the encoded objects; indices stay below 2 ^ 31.
use airplay2_sender_cpp.Base.{
  ℕ, ◌+◌, List, [], ◌∷◌, ◌++◌, Bytes, codes, be_bytes, bit_or, leb, ltb, length, replicate, set,
  if◌then◌else◌,
}
use airplay2_sender_cpp.Plist.{
  Value, Values, Dict, str, bytes, boolean, integer, real, array, object, no_values, item,
  no_entries, entry,
}

-- `encodeInt`; a word from 2 ^ 63 on is negative, and takes eight bytes as any that is large.
unfoldable pub encode_int : ℕ → Bytes
encode_int value =
    if leb value 0xFF
    then 0x10 ∷ be_bytes 1 value
    else if leb value 0xFFFF
    then 0x11 ∷ be_bytes 2 value
    else if leb value 0xFFFFFFFF
    then 0x12 ∷ be_bytes 4 value
    else 0x13 ∷ be_bytes 8 value

-- `encodeMarkerLen`
unfoldable pub encode_marker_len : ℕ → ℕ → Bytes
unfolding encode_int
encode_marker_len marker len =
    if ltb len 15 then bit_or marker len ∷ [] else bit_or marker 0x0F ∷ encode_int len

unfoldable pub encode_string : Bytes → Bytes
unfolding encode_marker_len
encode_string s = encode_marker_len 0x50 (length s) ++ s

-- `appendRef` for each of the references.
unfoldable pub refs : List ℕ → Bytes
refs [] = []
refs (r ∷ rs) = be_bytes 4 r ++ refs rs

-- `objects[idx] = std::move(obj)`
unfoldable pub place : ℕ → Bytes → List Bytes → ℕ × List Bytes
place idx obj objs = (idx, set objs idx obj)

unfoldable mutual
  unfolding place encode_int encode_string encode_marker_len refs

  -- `Encoder::add`: the index of the value, and the table with its objects.
  pub add : Value → List Bytes → ℕ × List Bytes
  add (boolean v) objs = place (length objs) ((if v then 0x09 else 0x08) ∷ []) (objs ++ ([] ∷ []))
  add (integer i) objs = place (length objs) (encode_int i) (objs ++ ([] ∷ []))
  add (real r) objs = place (length objs) (0x23 ∷ be_bytes 8 r) (objs ++ ([] ∷ []))
  add (str s) objs = place (length objs) (encode_string s) (objs ++ ([] ∷ []))
  add (bytes v) objs =
      place (length objs) (encode_marker_len 0x40 (length v) ++ v) (objs ++ ([] ∷ []))
  add (array vs) objs =
      let (rs, objs') = add_values vs (objs ++ ([] ∷ [])) in
      place (length objs) (encode_marker_len 0xA0 (length rs) ++ refs rs) objs'
  add (object d) objs =
      let (krefs, vrefs, objs') = add_entries d (objs ++ ([] ∷ [])) in
      place (length objs) (encode_marker_len 0xD0 (length krefs) ++ (refs krefs ++ refs vrefs))
        objs'

  pub add_values : Values → List Bytes → List ℕ × List Bytes
  add_values no_values objs = ([], objs)
  add_values (item v vs) objs =
      let (r, objs') = add v objs in let (rs, objs'') = add_values vs objs' in (r ∷ rs, objs'')

  -- A key is an object of its own, in front of its value.
  pub add_entries : Dict → List Bytes → List ℕ × List ℕ × List Bytes
  add_entries no_entries objs = ([], [], objs)
  add_entries (entry k v d) objs =
      let key = place (length objs) (encode_string k) (objs ++ ([] ∷ [])) in
      let (r, objs') = add v key.1 in
      let (krefs, vrefs, objs'') = add_entries d objs' in (key.0 ∷ krefs, r ∷ vrefs, objs'')

-- The objects one behind the other, and where each starts from `at` on.
unfoldable pub concat : List Bytes → Bytes
concat [] = []
concat (o ∷ os) = o ++ concat os

unfoldable pub offset_table : ℕ → List Bytes → Bytes
offset_table at [] = []
offset_table at (o ∷ os) = be_bytes 4 at ++ offset_table (at + length o) os

-- `encode`
unfoldable pub encode : Value → Bytes
unfolding add concat offset_table
encode root =
    let objs = (add root []).1 in
    let body = codes "bplist00" ++ concat objs in
    body
    ++ (offset_table 8 objs
        ++ (replicate 6 0
            ++ (4
                ∷ (4 ∷ (be_bytes 8 (length objs) ++ (be_bytes 8 0 ++ be_bytes 8 (length body)))))))
