-- ===== src/Log/Braces.antt =====
-- How the loops of `formatInto` of src/raop_log.h read doubled and single braces.
use airplay2_sender_cpp.Log.{open_brace, close_brace, is_brace, format_rest, format_first}
use airplay2_sender_cpp.Base.{
  inr, inl, ◌++◌, refl, if◌then◌else◌, arith, ◌≢◌, ◌⊎◌, Bytes, ℕ, ◌≡◌, [], ◌∷◌,
}

-- A text as a template writes it, its braces doubled.
unfoldable pub escape : Bytes → Bytes
unfolding is_brace
escape [] = []
escape (c ∷ cs) = if is_brace c then c ∷ (c ∷ escape cs) else c ∷ escape cs

module _ (first : Bytes) (rest : Bytes → Bytes) where
  first-plain :
      (c : ℕ) (xs : Bytes)
      → c ≢ open_brace
      → c ≢ close_brace
      → format_first first rest (c ∷ xs) ≡ c ∷ format_first first rest xs
  unfolding format_first
  first-plain c [] m n = refl
  first-plain c (d ∷ xs) m n = ground arith

  first-open :
      (xs : Bytes)
      → format_first first rest (open_brace ∷ (open_brace ∷ xs))
        ≡ open_brace ∷ format_first first rest xs
  unfolding format_first
  first-open xs = refl

  first-close :
      (xs : Bytes)
      → format_first first rest (close_brace ∷ (close_brace ∷ xs))
        ≡ close_brace ∷ format_first first rest xs
  unfolding format_first
  first-close xs = refl

  pub first-escape :
      (t xs : Bytes) → format_first first rest (escape t ++ xs) ≡ t ++ format_first first rest xs
  unfolding escape is_brace
  first-escape [] xs = refl
  first-escape (c ∷ cs) xs = ground (
    arith,
    first-plain c (escape cs ++ xs),
    first-open (escape cs ++ xs),
    first-close (escape cs ++ xs),
    first-escape cs xs,
  )

pub rest-plain :
    (c : ℕ) (xs : Bytes)
    → c ≢ open_brace
    → c ≢ close_brace
    → format_rest (c ∷ xs) ≡ c ∷ format_rest xs
unfolding format_rest is_brace
rest-plain c [] m n = refl
rest-plain c (d ∷ xs) m n = ground arith

rest-open :
    (xs : Bytes) → format_rest (open_brace ∷ (open_brace ∷ xs)) ≡ open_brace ∷ format_rest xs
unfolding format_rest is_brace
rest-open xs = refl

rest-close :
    (xs : Bytes) → format_rest (close_brace ∷ (close_brace ∷ xs)) ≡ close_brace ∷ format_rest xs
unfolding format_rest is_brace
rest-close xs = refl

pub rest-escape : (t xs : Bytes) → format_rest (escape t ++ xs) ≡ t ++ format_rest xs
unfolding escape is_brace
rest-escape [] xs = refl
rest-escape (c ∷ cs) xs = ground (
  arith,
  rest-plain c (escape cs ++ xs),
  rest-open (escape cs ++ xs),
  rest-close (escape cs ++ xs),
  rest-escape cs xs,
)

-- Behind a text stands nothing, or a place.
abbrev pub Follows : Bytes → Type 0
Follows [] = Unit
Follows (c ∷ cs) = c ≡ open_brace

rest-close_other :
    (d : ℕ) (xs : Bytes)
    → d ≢ close_brace
    → format_rest (close_brace ∷ (d ∷ xs)) ≡ close_brace ∷ format_rest (d ∷ xs)
unfolding format_rest is_brace
rest-close_other d xs n = ground arith

brace_cases :
    (c : ℕ) → (c ≡ open_brace) ⊎ ((c ≡ close_brace) ⊎ ((c ≢ open_brace) × (c ≢ close_brace)))
brace_cases c = ground arith

escape-plain :
    (c : ℕ) (cs : Bytes) → c ≢ open_brace → c ≢ close_brace → escape (c ∷ cs) ≡ c ∷ escape cs
unfolding escape is_brace
escape-plain c cs m n = ground arith

-- A closing brace is not taken for a half of the pairs that follow it.
pub rest-close_escape :
    (t xs : Bytes)
    → Follows xs
    → format_rest (close_brace ∷ (escape t ++ xs)) ≡ close_brace ∷ (t ++ format_rest xs)
unfolding escape is_brace format_rest
rest-close_escape [] [] h = refl
rest-close_escape [] (c ∷ cs) h = ground (arith, h)
rest-close_escape (c ∷ cs) xs h = elim (brace_cases c) [
  | inl e ↦ rw e (
      rw
        (
          rest-close_other open_brace (open_brace ∷ (escape cs ++ xs)) (omega arith),
          rest-open (escape cs ++ xs),
          rest-escape cs xs,
        )
        refl)
  | inr (inl e) ↦
      rw e (rw (rest-close (close_brace ∷ (escape cs ++ xs)), rest-close_escape cs xs h) refl)
  | inr (inr (m, n)) ↦
      rw
        (
          escape-plain c cs m n,
          rest-close_other c (escape cs ++ xs) n,
          rest-plain c (escape cs ++ xs) m n,
          rest-escape cs xs,
        )
        refl
]
