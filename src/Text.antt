-- ===== src/Text.antt =====
-- The text helpers at the top of src/raop_sender.cpp, on byte strings.
pub mod Numbers
pub mod Splitting
mod Tests
use airplay2_sender_cpp.Base.{
  ℕ, zero, suc, ◌+◌, ◌-◌, Bool, true, false, not, ◌&&◌, ◌||◌, List, [], ◌∷◌, ◌++◌, Option, none,
  some, Bytes, bytes_eq, leb, ltb, ◌==◌, if◌then◌else◌, length, be_bytes,
}
use mathlib.Core.List.{reverse}

-- `ws` of `trimAscii`
is_space : ℕ → Bool
is_space c =
    (c == 0x20) || ((c == 0x09) || ((c == 0x0A) || ((c == 0x0B) || ((c == 0x0C) || (c == 0x0D)))))

trim_front : Bytes → Bytes
unfolding is_space
trim_front [] = []
trim_front (c ∷ cs) = if is_space c then trim_front cs else c ∷ cs

-- `trimAscii`
unfoldable pub trim_ascii : Bytes → Bytes
unfolding trim_front
trim_ascii s = reverse (trim_front (reverse (trim_front s)))

prepend : ℕ → List Bytes → List Bytes
prepend c [] = (c ∷ []) ∷ []
prepend c (piece ∷ pieces) = (c ∷ piece) ∷ pieces

-- `splitOn`: always at least one piece.
unfoldable pub split_on : ℕ → Bytes → List Bytes
unfolding prepend
split_on sep [] = [] ∷ []
split_on sep (c ∷ cs) =
    let pieces = split_on sep cs in if c == sep then [] ∷ pieces else prepend c pieces

lower_char : ℕ → ℕ
lower_char c = if leb b'A' c && leb c b'Z' then c + 32 else c

upper_char : ℕ → ℕ
upper_char c = if leb b'a' c && leb c b'z' then c - 32 else c

unfoldable pub lower_ascii : Bytes → Bytes
unfolding lower_char
lower_ascii [] = []
lower_ascii (c ∷ cs) = lower_char c ∷ lower_ascii cs

unfoldable pub upper_ascii : Bytes → Bytes
unfolding upper_char
upper_ascii [] = []
upper_ascii (c ∷ cs) = upper_char c ∷ upper_ascii cs

-- `stripCrLf`
unfoldable pub strip_cr_lf : Bytes → Bytes
strip_cr_lf [] = []
strip_cr_lf (c ∷ cs) = if (c == 0x0D) || (c == 0x0A) then strip_cr_lf cs else c ∷ strip_cr_lf cs

-- `s.rfind(prefix, 0) == 0`
unfoldable pub starts_with : Bytes → Bytes → Bool
starts_with [] s = true
starts_with (p ∷ ps) [] = false
starts_with (p ∷ ps) (c ∷ cs) = (p == c) && starts_with ps cs

-- `s.find(needle)`: what stands before the first occurrence, and what behind it.
found_here : Bool → Bytes → Bytes → Option (Bytes × Bytes) → ℕ → Option (Bytes × Bytes)
found_here true needle rest later c = some ([], rest)
found_here false needle rest none c = none
found_here false needle rest (some (before, behind)) c = some (c ∷ before, behind)

drop_prefix : Bytes → Bytes → Bytes
drop_prefix [] s = s
drop_prefix (p ∷ ps) [] = []
drop_prefix (p ∷ ps) (c ∷ cs) = drop_prefix ps cs

unfoldable pub find_split : Bytes → Bytes → Option (Bytes × Bytes)
unfolding found_here drop_prefix starts_with
find_split needle [] = if starts_with needle [] then some ([], []) else none
find_split needle (c ∷ cs) =
    let later = find_split needle cs in
    found_here (starts_with needle (c ∷ cs)) needle (drop_prefix needle (c ∷ cs)) later c

-- `std::unordered_map<std::string, std::string>` of the headers, the latest entry first.
abbrev pub Headers : Type 0
Headers = List (Bytes × Bytes)

-- `h.find(key)`
unfoldable pub find_header : Headers → Bytes → Option Bytes
unfolding bytes_eq
find_header [] key = none
find_header ((k, v) ∷ h) key = if bytes_eq k key then some v else find_header h key

or_default : Option Bytes → Bytes → Bytes
or_default none def = def
or_default (some v) def = v

-- `headerValue`
unfoldable pub header_value : Headers → Bytes → Bytes → Bytes
unfolding find_header or_default
header_value h key def = or_default (find_header h key) def

-- `dmapTag`: four characters, the length in four bytes, the payload.
unfoldable pub dmap_tag : Bytes → Bytes → Bytes
dmap_tag code payload = code ++ (be_bytes 4 (length payload) ++ payload)
