-- ===== src/Tlv/Joined.antt =====
-- TLV8: what becomes of neighbours of one tag.
use airplay2_sender_cpp.Base.{
  ◌==◌, ==_iff, ◌≢◌, inr, inl, Bool-cases, ◌≡◌, refl, ap, sym, subst, ◌∙◌, ℕ, [], ◌∷◌, ◌++◌, arith,
  Bytes, append_assoc, if◌then◌else◌,
}
use airplay2_sender_cpp.Tlv.{Items, encode, join_last, decode}
use airplay2_sender_cpp.Tlv.RoundTrip.{join_all, decode_loop-all, join_last-append}

-- An item in front of others: it takes up the next one if that has the same tag.
unfoldable pub attach : ℕ → Bytes → Items → Items
attach t v [] = (t, v) ∷ []
attach t v ((t', v') ∷ items) =
    if t == t' then (t, v ++ v') ∷ items else (t, v) ∷ ((t', v') ∷ items)

-- Items with each run of neighbours of one tag made one.
unfoldable pub joined : Items → Items
unfolding attach
joined [] = []
joined ((t, v) ∷ items) = attach t v (joined items)

attach-attach :
    (t : ℕ) (v w : Bytes) (items : Items) → attach t v (attach t w items) ≡ attach t (v ++ w) items
unfolding attach
attach-attach t v w [] = ground arith
attach-attach t v w ((t', v') ∷ items) = ground (arith, append_assoc v w v')

attach-other :
    (t : ℕ) (v : Bytes) (t' : ℕ) (w : Bytes) (items : Items)
    → t ≢ t'
    → attach t v (attach t' w items) ≡ (t, v) ∷ attach t' w items
unfolding attach
attach-other t v t' w [] ne = ground arith
attach-other t v t' w ((t'', v') ∷ items) ne = ground arith

join_last-same :
    (out : Items) (t : ℕ) (v chunk : Bytes)
    → join_last (out ++ (t, v) ∷ []) t chunk ≡ out ++ (t, v ++ chunk) ∷ []
unfolding join_last
join_last-same [] t v chunk = ground arith
join_last-same (item ∷ []) t v chunk = ap (◌∷◌ item) (join_last-same [] t v chunk)
join_last-same (item ∷ (next ∷ out)) t v chunk =
    ap (◌∷◌ item) (join_last-same (next ∷ out) t v chunk)

-- A neighbour of the same tag, when the rest is known.
joined-same :
    (out : Items) (t t' : ℕ) (v v' : Bytes) (items : Items)
    → t ≡ t'
    → join_all (out ++ (t, v ++ v') ∷ []) items ≡ out ++ joined ((t, v ++ v') ∷ items)
    → join_all (join_last (out ++ (t, v) ∷ []) t' v') items
      ≡ out ++ attach t v (attach t' v' (joined items))
unfolding joined
joined-same out t t' v v' items p rest =
    subst
      (λ k.
        join_all (join_last (out ++ (t, v) ∷ []) k v') items
        ≡ out ++ attach t v (attach k v' (joined items)))
      p
      (ap (λ o. join_all o items) (join_last-same out t v v')
        ∙ (rest ∙ ap (λ r. out ++ r) (sym (attach-attach t v v' (joined items)))))

join_all-joined :
    (out : Items) (t : ℕ) (v : Bytes) (items : Items)
    → join_all (out ++ (t, v) ∷ []) items ≡ out ++ joined ((t, v) ∷ items)
unfolding join_all joined attach
join_all-joined out t v [] = refl
join_all-joined out t v ((t', v') ∷ items) = elim (Bool-cases (t == t')) [
  | inl e ↦
      joined-same out t t' v v' items ((==_iff t t').0 e) (join_all-joined out t (v ++ v') items)
  | inr e ↦
      let ne : t ≢ t' = λ p. ground (arith, e, p) in
      ap (λ o. join_all o items) (join_last-append out t v t' v' ne)
      ∙ (join_all-joined (out ++ (t, v) ∷ []) t' v' items
          ∙ (append_assoc out ((t, v) ∷ []) (joined ((t', v') ∷ items))
              ∙ ap (λ r. out ++ r) (sym (attach-other t v t' v' (joined items) ne))))
]

-- `decode` undoes `encode`, for values of any length, except that a run of neighbours of one tag
-- comes back as one item, with the values one after another.
pub decode-encode-joined : (items : Items) → decode (encode items) ≡ joined items
unfolding joined join_all join_last
decode-encode-joined [] = decode_loop-all []
decode-encode-joined ((t, v) ∷ items) =
    decode_loop-all ((t, v) ∷ items) ∙ join_all-joined [] t v items
