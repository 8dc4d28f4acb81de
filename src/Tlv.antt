-- ===== src/Tlv.antt =====
-- The HomeKit TLV8 items of src/airplay_crypto.cpp (namespace `tlv`), on byte lists.
pub mod Tag
pub mod RoundTrip
pub mod Joined
mod Tests
use airplay2_sender_cpp.Base.{
  ℕ, zero, suc, ◌+◌, ◌-◌, min, Bool, List, [], ◌∷◌, ◌++◌, length, take, drop, ltb, ◌==◌,
  if◌then◌else◌, Option, none, some, Bytes,
}

-- `tlv::Map`: an insertion-ordered sequence of items.
abbrev pub Items : Type 0
Items = List (ℕ × Bytes)

-- The do-while loop of `encode` over one value: chunks of at most 255 bytes, at least one. The
-- number bounds the rounds.
pub fragments : ℕ → ℕ → Bytes → Bytes
fragments zero tag value = []
fragments (suc fuel) tag value =
    let rest = fragments fuel tag (drop 255 value) in
    tag
    ∷ (min 255 (length value) ∷ (take 255 value ++ (if ltb 255 (length value) then rest else [])))

unfoldable pub encode : Items → Bytes
unfolding fragments
encode [] = []
encode ((tag, value) ∷ items) = fragments (suc (length value)) tag value ++ encode items

-- A chunk joins the last item if the tag is the same, and is an item of its own otherwise.
pub join_last : Items → ℕ → Bytes → Items
join_last [] tag chunk = (tag, chunk) ∷ []
join_last ((t, v) ∷ []) tag chunk =
    if t == tag then (t, v ++ chunk) ∷ [] else (t, v) ∷ ((tag, chunk) ∷ [])
join_last (item ∷ (next ∷ items)) tag chunk = item ∷ join_last (next ∷ items) tag chunk

-- The while loop of `decode`, on the bytes from `i` on. The number bounds the rounds.
pub decode_loop : ℕ → Bytes → Items → Items
unfolding join_last
decode_loop zero bytes out = out
decode_loop (suc fuel) [] out = out
decode_loop (suc fuel) (tag ∷ []) out = out
decode_loop (suc fuel) (tag ∷ (len ∷ rest)) out =
    let more = decode_loop fuel (drop len rest) (join_last out tag (take len rest)) in
    if ltb (length rest) len then out else more

unfoldable pub decode : Bytes → Items
unfolding decode_loop
decode bytes = decode_loop (length bytes) bytes []

-- `tlv::get`: the first item with the tag.
unfoldable pub get : Items → ℕ → Option Bytes
get [] tag = none
get ((t, v) ∷ items) tag = if t == tag then some v else get items tag
