-- ===== src/Tlv/RoundTrip.antt =====
-- TLV8: what `decode` makes of what `encode` writes.
use airplay2_sender_cpp.Base.{
  ltb_false→le, ◌≢◌, take_all, inr, take-append-drop, inl, Bool-cases, drop-length_append, ltb,
  take-length_append, ℕ, zero, suc, ◌≤◌, ◌<◌, ◌≡◌, refl, ap, sym, ◌∙◌, [], ◌∷◌, ◌++◌, length, take,
  drop, arith, Bytes, append_assoc, length-append, length-take, length-drop, if◌then◌else◌,
}
use airplay2_sender_cpp.Tlv.{Items, fragments, encode, join_last, decode_loop, decode}

-- What the decoder makes of items that arrive whole.
unfoldable pub join_all : Items → Items → Items
join_all out [] = out
join_all out ((tag, value) ∷ items) = join_all (join_last out tag value) items

-- Any fuel that covers the bytes gives the same result.
decode_loop-enough :
    (f g : ℕ) (bytes : Bytes) (out : Items)
    → length bytes ≤ f
    → length bytes ≤ g
    → decode_loop f bytes out ≡ decode_loop g bytes out
unfolding decode_loop
decode_loop-enough zero zero bytes out hf hg = refl
decode_loop-enough zero (suc g) [] out hf hg = refl
decode_loop-enough zero (suc g) (tag ∷ rest) out hf hg = absurd (omega arith)
decode_loop-enough (suc f) zero [] out hf hg = refl
decode_loop-enough (suc f) zero (tag ∷ rest) out hf hg = absurd (omega arith)
decode_loop-enough (suc f) (suc g) [] out hf hg = refl
decode_loop-enough (suc f) (suc g) (tag ∷ []) out hf hg = refl
decode_loop-enough (suc f) (suc g) (tag ∷ (len ∷ rest)) out hf hg =
    ap (λ t. if ltb (length rest) len then out else t)
      (decode_loop-enough f g (drop len rest) (join_last out tag (take len rest))
        (omega (arith, length-drop len rest)) (omega (arith, length-drop len rest)))

join_last-join_last :
    (out : Items) (tag : ℕ) (a b : Bytes)
    → join_last (join_last out tag a) tag b ≡ join_last out tag (a ++ b)
unfolding join_last
join_last-join_last [] tag a b = ground arith
join_last-join_last ((t, v) ∷ []) tag a b = ground (arith, append_assoc v a b)
join_last-join_last ((t, v) ∷ ((t', v') ∷ [])) tag a b = ground (arith, append_assoc v' a b)
join_last-join_last (item ∷ (next ∷ (third ∷ items))) tag a b =
    ap (◌∷◌ item) (join_last-join_last (next ∷ (third ∷ items)) tag a b)

-- One chunk.
decode_loop-chunk :
    (f tag : ℕ) (chunk rest : Bytes) (out : Items)
    → decode_loop (suc f) (tag ∷ (length chunk ∷ (chunk ++ rest))) out
      ≡ decode_loop f rest (join_last out tag chunk)
unfolding decode_loop
decode_loop-chunk f tag chunk rest out =
    ground (
      arith,
      length-append chunk rest,
      take-length_append chunk rest,
      drop-length_append chunk rest,
    )

-- The fragments of one value arrive as one item.
decode_loop-fragments :
    (g f tag : ℕ) (value rest : Bytes) (out : Items)
    → length value < g
    → length (fragments g tag value ++ rest) ≤ f
    → decode_loop f (fragments g tag value ++ rest) out
      ≡ decode_loop (length rest) rest (join_last out tag value)
unfolding fragments
decode_loop-fragments zero f tag value rest out h hf = absurd (omega arith)
decode_loop-fragments (suc g) zero tag value rest out h hf = absurd (omega arith)
decode_loop-fragments (suc g) (suc f) tag value rest out h hf =
    elim (Bool-cases (ltb 255 (length value))) [
      | inl more ↦ step (fragments g tag (drop 255 value)) (rw more) (
          decode_loop-fragments g f tag (drop 255 value) rest _
            (ground (arith, length-drop 255 value))
            (ground (arith, fits (fragments g tag (drop 255 value)) (rw more)))
          ∙ ap (decode_loop (length rest) rest) (
              join_last-join_last out tag (take 255 value) (drop 255 value)
              ∙ ap (join_last out tag) (take-append-drop 255 value)))
      | inr last ↦ step [] (rw last) (
          decode_loop-enough f (length rest) rest _ (fits [] (rw last)) (omega arith)
          ∙ ap (λ v. decode_loop (length rest) rest (join_last out tag v))
              (take_all 255 value (ltb_false→le 255 (length value) last)))
    ]
  where
    chunk : Bytes
    chunk = take 255 value

    tail : Bytes
    tail = if ltb 255 (length value) then fragments g tag (drop 255 value) else []

    fits : (more : Bytes) → tail ≡ more → length (more ++ rest) ≤ f
    fits more e = omega (
      arith,
      hf,
      ap (λ t. length (t ++ rest)) e,
      length-append (chunk ++ tail) rest,
      length-append chunk tail,
      length-append tail rest,
    )

    step :
        (more : Bytes)
        → tail ≡ more
        → decode_loop f (more ++ rest) (join_last out tag chunk)
          ≡ decode_loop (length rest) rest (join_last out tag value)
        → decode_loop (suc f) (fragments (suc g) tag value ++ rest) out
          ≡ decode_loop (length rest) rest (join_last out tag value)
    step more e h =
        ap (λ t. decode_loop (suc f) (tag ∷ (t ∷ ((chunk ++ tail) ++ rest))) out)
          (sym (length-take 255 value))
        ∙ (ap (λ t. decode_loop (suc f) (tag ∷ (length chunk ∷ t)) out)
              (append_assoc chunk tail rest ∙ ap (λ t. chunk ++ (t ++ rest)) e)
            ∙ (decode_loop-chunk f tag chunk (more ++ rest) out ∙ h))

decode_loop-none : (out : Items) → decode_loop 0 [] out ≡ out
unfolding decode_loop
decode_loop-none out = refl

decode_loop-encode :
    (items out : Items)
    → decode_loop (length (encode items)) (encode items) out ≡ join_all out items
unfolding encode join_all
decode_loop-encode [] out = decode_loop-none out
decode_loop-encode ((tag, value) ∷ items) out =
    decode_loop-fragments (suc (length value)) _ tag value (encode items) out (omega arith)
      (omega arith)
    ∙ decode_loop-encode items (join_last out tag value)

pub decode_loop-all : (items : Items) → decode (encode items) ≡ join_all [] items
unfolding decode
decode_loop-all items = decode_loop-encode items []

-- No two neighbours have the same tag.
abbrev pub Separated : Items → Type 0
Separated [] = Unit {0}
Separated (item ∷ []) = Unit {0}
Separated ((t, v) ∷ ((t', v') ∷ items)) = (t ≢ t') × Separated ((t', v') ∷ items)

pub join_last-append :
    (out : Items) (t : ℕ) (v : Bytes) (tag : ℕ) (chunk : Bytes)
    → t ≢ tag
    → join_last (out ++ (t, v) ∷ []) tag chunk ≡ (out ++ (t, v) ∷ []) ++ (tag, chunk) ∷ []
unfolding join_last
join_last-append [] t v tag chunk ne = ground arith
join_last-append (item ∷ []) t v tag chunk ne = ap (◌∷◌ item) (join_last-append [] t v tag chunk ne)
join_last-append (item ∷ (next ∷ out)) t v tag chunk ne =
    ap (◌∷◌ item) (join_last-append (next ∷ out) t v tag chunk ne)

join_all-Separated :
    (out : Items) (t : ℕ) (v : Bytes) (items : Items)
    → Separated ((t, v) ∷ items)
    → join_all (out ++ (t, v) ∷ []) items ≡ out ++ (t, v) ∷ items
unfolding join_all
join_all-Separated out t v [] s = refl
join_all-Separated out t v ((t', v') ∷ items) s =
    ap (λ o. join_all o items) (join_last-append out t v t' v' s.0)
    ∙ (join_all-Separated (out ++ (t, v) ∷ []) t' v' items s.1
        ∙ append_assoc out ((t, v) ∷ []) ((t', v') ∷ items))

-- Items of which no two neighbours share a tag come back as they were, whatever the lengths of
-- their values.
pub decode-encode : (items : Items) → Separated items → decode (encode items) ≡ items
unfolding join_all join_last
decode-encode [] s = decode_loop-all []
decode-encode ((t, v) ∷ items) s =
    decode_loop-all ((t, v) ∷ items) ∙ join_all-Separated [] t v items s
