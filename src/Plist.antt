-- ===== src/Plist.antt =====
-- The binary property lists of src/airplay_crypto.cpp and src/airplay_crypto.h (namespace
-- `bplist`): the value tree. An `int64_t` is its word below 2 ^ 64. A `double` is the word of
-- its bits.
pub mod Encode
pub mod Decode
mod Tests
use airplay2_sender_cpp.Base.{
  ℕ, Bool, true, false, List, [], ◌∷◌, Option, none, some, Bytes, bytes_eq, if◌then◌else◌,
}

mutual
  pub data Value : Type 0 where
    boolean : Bool → Value
    integer : ℕ → Value
    real : ℕ → Value
    str : Bytes → Value
    bytes : Bytes → Value
    array : Values → Value
    object : Dict → Value

  pub data Values : Type 0 where
    no_values : Values
    item : Value → Values → Values

  pub data Dict : Type 0 where
    no_entries : Dict
    entry : Bytes → Value → Dict → Dict

unfoldable pub find_entry : Dict → Bytes → Option Value
find_entry no_entries key = none
find_entry (entry k v d) key = if bytes_eq k key then some v else find_entry d key

-- `Value::find`
unfoldable pub find : Value → Bytes → Option Value
unfolding find_entry
find (object d) key = find_entry d key
find _ key = none

-- `asInt()`
unfoldable pub as_int : Value → ℕ
as_int (integer i) = i
as_int _ = 0

-- `asStr()`
unfoldable pub as_str : Value → Bytes
as_str (str s) = s
as_str _ = []
