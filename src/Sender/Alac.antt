-- ===== src/Sender/Alac.antt =====
-- `encodeAlacFrame_` of src/raop_sender.cpp: an uncompressed ALAC frame, written bit by bit.
pub mod BitLists
pub mod Layout
use airplay2_sender_cpp.Base.{
  ℕ, zero, suc, ◌+◌, ◌-◌, ◌*◌, ◌/◌, ◌%◌, ◌^◌, List, [], ◌∷◌, ◌++◌, Bytes, ◌==◌, ltb, if◌then◌else◌,
}

-- The bytes that are done, the byte under way and its number of bits.
pub record Packer : Type 0 where
  pub out : Bytes
  pub cur : ℕ
  pub filled : ℕ

-- One round of the loop of `put`.
unfoldable pub put_bit : ℕ → Packer → Packer
put_bit bit p =
    let cur = (p.cur * 2 + bit) % 256 in
    if p.filled + 1 == 8
    then record { out = p.out ++ (cur ∷ []); cur = 0; filled = 0 }
    else record { out = p.out; cur = cur; filled = p.filled + 1 }

-- `put`: the low `bits` bits of the value, the highest first.
unfoldable pub put : ℕ → ℕ → Packer → Packer
unfolding put_bit
put value zero p = p
put value (suc i) p = put value i (put_bit ((value / 2 ^ i) % 2) p)

unfoldable pub put_samples : List ℕ → Packer → Packer
unfolding put
put_samples [] p = p
put_samples (x ∷ xs) p = put_samples xs (put (x % 2 ^ 16) 16 p)

unfoldable pub flush : Packer → Bytes
flush p = if ltb 0 p.filled then p.out ++ ((p.cur * 2 ^ (8 - p.filled) % 256) ∷ []) else p.out

-- The six fields in front of the samples: the channel element, two unused fields, the size flag,
-- the wasted bytes and the flag of an uncompressed frame.
unfoldable pub put_head : Packer → Packer
unfolding put
put_head p = put 1 1 (put 0 2 (put 0 1 (put 0 12 (put 0 4 (put 1 3 p)))))

unfoldable pub encode_alac_frame : List ℕ → Bytes
unfolding put_head put_samples flush
encode_alac_frame samples =
    flush (put 7 3 (put_samples samples (put_head (record { out = []; cur = 0; filled = 0 }))))
