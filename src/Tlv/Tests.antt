-- ===== src/Tlv/Tests.antt =====
-- Runs of the TLV8 codec.
use airplay2_sender_cpp.Base.{◌≡◌, refl, [], ◌∷◌, ◌++◌, replicate, arith}
use airplay2_sender_cpp.Tlv.{Items, encode, decode}
use airplay2_sender_cpp.Tlv.Tag
use airplay2_sender_cpp.Tlv.RoundTrip.{decode-encode}
use airplay2_sender_cpp.Tlv.Joined.{joined, decode-encode-joined}

-- M3 of pair-setup: the public key needs two chunks.
abbrev m3_items : Items
m3_items =
    (Tag.state, 3 ∷ []) ∷ ((Tag.public_key, replicate 384 1) ∷ ((Tag.proof, replicate 64 2) ∷ []))

decode-encode_example : decode (encode m3_items) ≡ m3_items
decode-encode_example = decode-encode m3_items (λ e. omega arith, (λ e. omega arith, tt))

-- A public key in two items, and a tag that comes back later.
abbrev split_items : Items
split_items =
    (Tag.public_key, replicate 300 1)
    ∷ ((Tag.public_key, replicate 84 2) ∷ ((Tag.proof, 7 ∷ []) ∷ ((Tag.public_key, 8 ∷ []) ∷ [])))

decode-encode-joined_example : decode (encode split_items) ≡ joined split_items
decode-encode-joined_example = decode-encode-joined split_items

joined-split_items :
    joined split_items
    ≡ (Tag.public_key, replicate 300 1 ++ replicate 84 2)
      ∷ ((Tag.proof, 7 ∷ []) ∷ ((Tag.public_key, 8 ∷ []) ∷ []))
unfolding joined
joined-split_items = refl
