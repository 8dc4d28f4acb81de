-- ===== src/Text/Splitting.antt =====
-- `splitOn` of src/raop_sender.cpp against joining.
use airplay2_sender_cpp.Base.{
  ℕ, Bool, true, false, not, ◌&&◌, ◌||◌, List, [], ◌∷◌, ◌++◌, Bytes, ◌==◌, ◌≡◌, refl, ap, ◌∙◌,
  if-split, arith,
}
use airplay2_sender_cpp.Text.{prepend, split_on}

joined : ℕ → Bytes → List Bytes → Bytes
joined sep p [] = p
joined sep p (q ∷ qs) = p ++ (sep ∷ joined sep q qs)

-- The pieces with a separator between any two.
unfoldable pub join : ℕ → List Bytes → Bytes
unfolding joined
join sep [] = []
join sep (p ∷ ps) = joined sep p ps

unfoldable pub has : ℕ → Bytes → Bool
has sep [] = false
has sep (c ∷ cs) = (c == sep) || has sep cs

-- Whether no piece holds the separator.
unfoldable pub free : ℕ → List Bytes → Bool
unfolding has
free sep [] = true
free sep (p ∷ ps) = not (has sep p) && free sep ps

unfoldable pub some_piece : List Bytes → Bool
some_piece [] = false
some_piece (p ∷ ps) = true

-- The pieces `ps` are the text `s` cut at every separator.
abbrev pub Cuts : ℕ → Bytes → List Bytes → Type 0
Cuts sep s ps = (join sep ps ≡ s) × (free sep ps ≡ true) × (some_piece ps ≡ true)

same : (c sep : ℕ) → (c == sep) ≡ true → sep ≡ c
same c sep e = ground arith

unlike : (x y : Bool) → x ≡ false → (x || y) ≡ y
unlike x y e = ground arith

joined-prepend :
    (sep c : ℕ) (p : Bytes) (ps : List Bytes) → joined sep (c ∷ p) ps ≡ c ∷ joined sep p ps
unfolding joined
joined-prepend sep c p [] = refl
joined-prepend sep c p (q ∷ qs) = refl

prepend-Cuts :
    (sep c : ℕ) (s : Bytes) (ps : List Bytes)
    → (c == sep) ≡ false
    → Cuts sep s ps
    → Cuts sep (c ∷ s) (prepend c ps)
unfolding prepend join free has some_piece
prepend-Cuts sep c s [] e (j, f, n) = absurd (ground arith)
prepend-Cuts sep c s (p ∷ ps) e (j, f, n) = (
  joined-prepend sep c p ps ∙ ap (λ r. c ∷ r) j,
  ap (λ x. not x && free sep ps) (unlike (c == sep) (has sep p) e) ∙ f,
  refl,
)

cut-Cuts :
    (sep c : ℕ) (s : Bytes) (ps : List Bytes)
    → (c == sep) ≡ true
    → Cuts sep s ps
    → Cuts sep (c ∷ s) ([] ∷ ps)
unfolding joined join free has some_piece
cut-Cuts sep c s [] e (j, f, n) = absurd (ground arith)
cut-Cuts sep c s (p ∷ ps) e (j, f, n) =
    (ap (λ r. r ∷ joined sep p ps) (same c sep e) ∙ ap (λ r. c ∷ r) j, f, refl)

-- Splitting a text at a separator yields at least one piece and no piece that holds the separator,
-- and the pieces joined by it are the text.
pub split_on-Cuts : (sep : ℕ) (s : Bytes) → Cuts sep s (split_on sep s)
unfolding split_on prepend join joined free has some_piece
split_on-Cuts sep [] = (refl, refl, refl)
split_on-Cuts sep (c ∷ cs) =
    let rest = split_on-Cuts sep cs in
    if-split (Cuts sep (c ∷ cs)) (c == sep) _ _ (λ e. cut-Cuts sep c cs (split_on sep cs) e rest)
      (λ e. prepend-Cuts sep c cs (split_on sep cs) e rest)
