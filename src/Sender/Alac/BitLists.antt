-- ===== src/Sender/Alac/BitLists.antt =====
-- Bytes as the bits that a receiver of src/raop_sender.cpp's ALAC frames reads.
use airplay2_sender_cpp.Base.{
  div_pow, ap₂, ℕ, zero, suc, ◌+◌, ◌-◌, ◌*◌, ◌/◌, ◌%◌, ◌^◌, ◌≤◌, ◌<◌, ◌≡◌, refl, ap, sym, ◌∙◌, List,
  [], ◌∷◌, ◌++◌, Bytes, arith, length, replicate, append_assoc, append-nil,
}
use native.Mathlib.Nat.{pow-succ', pow-le-pow_right, mul-lt-mul_of_pos_right}
use airplay2_sender_cpp.Base.{pow_add, pow_pos, length-append}

-- The low `n` bits of a number, the highest first.
unfoldable pub bits : ℕ → ℕ → List ℕ
bits zero v = []
bits (suc n) v = ((v / 2 ^ n) % 2) ∷ bits n v

-- The bits of bytes, as the receiver reads them.
unfoldable pub bits_of : Bytes → List ℕ
unfolding bits
bits_of [] = []
bits_of (x ∷ xs) = bits 8 x ++ bits_of xs

unfoldable pub sample_bits : List ℕ → List ℕ
unfolding bits
sample_bits [] = []
sample_bits (x ∷ xs) = bits 16 (x % 2 ^ 16) ++ sample_bits xs

pub bits_of-append : (xs ys : Bytes) → bits_of (xs ++ ys) ≡ bits_of xs ++ bits_of ys
unfolding bits_of
bits_of-append [] ys = refl
bits_of-append (x ∷ xs) ys =
    ap (λ t. bits 8 x ++ t) (bits_of-append xs ys)
    ∙ sym (append_assoc (bits 8 x) (bits_of xs) (bits_of ys))

-- The bits above the lowest.
pub half-above : (n c bit : ℕ) → bit < 2 → (c * 2 + bit) / 2 ^ suc n ≡ c / 2 ^ n
half-above zero c bit h = omega arith
half-above (suc n) c bit h =
    div_pow (c * 2 + bit) (suc n) ∙ (ap (λ t. t / 2) (half-above n c bit h) ∙ sym (div_pow c n))

-- One more bit below.
pub bits-double : (n c bit : ℕ) → bit < 2 → bits (suc n) (c * 2 + bit) ≡ bits n c ++ bit ∷ []
unfolding bits
bits-double zero c bit h = ap (λ t. t ∷ []) (omega arith)
bits-double (suc n) c bit h =
    ap₂ ◌∷◌ (ap (λ t. t % 2) (half-above n c bit h)) (bits-double n c bit h)

-- A byte is full: its bits are the seven before and the new one.
pub full_byte :
    (out : Bytes) (cur bit : ℕ)
    → bit < 2
    → cur < 2 ^ 7
    → bits_of (out ++ (cur * 2 + bit) % 256 ∷ []) ≡ (bits_of out ++ bits 7 cur) ++ bit ∷ []
unfolding bits_of
full_byte out cur bit h c =
    bits_of-append out ((cur * 2 + bit) % 256 ∷ [])
    ∙ (ap (λ t. bits_of out ++ t)
          (append-nil (bits 8 ((cur * 2 + bit) % 256))
            ∙ (ap (bits 8) (omega arith) ∙ bits-double 7 cur bit h))
        ∙ sym (append_assoc (bits_of out) (bits 7 cur) (bit ∷ [])))

-- A byte goes on.
pub part_byte :
    (n cur bit : ℕ)
    → bit < 2
    → n < 7
    → cur < 2 ^ n
    → (bits (n + 1) ((cur * 2 + bit) % 256) ≡ bits n cur ++ bit ∷ [])
      × ((cur * 2 + bit) % 256 < 2 ^ (n + 1))
part_byte n cur bit h small c =
    let p : 2 ^ n ≤ 2 ^ 6 = pow-le-pow_right {n = 2} (omega arith) {i = n} {j = 6} (omega arith) in
    let e : n + 1 ≡ suc n = omega arith in
    let d : 2 ^ (n + 1) ≡ 2 ^ n * 2 = pow_add 2 n 1 in
    let m : (cur * 2 + bit) % 256 ≡ cur * 2 + bit = omega arith in
    (ap₂ bits e m ∙ bits-double n cur bit h, omega arith)

abbrev pub zeros : ℕ → List ℕ
zeros k = replicate k 0

pub zeros-snoc : (k : ℕ) → zeros k ++ zeros 1 ≡ zeros (suc k)
zeros-snoc zero = refl
zeros-snoc (suc k) = ap (◌∷◌ 0) (zeros-snoc k)

-- A number that is shifted to the left ends in zeros.
pub bits-shift : (k n c : ℕ) → bits (k + n) (c * 2 ^ k) ≡ bits n c ++ zeros k
bits-shift zero n c =
    let m : 0 + n ≡ n = omega arith in
    let e : c * 2 ^ 0 ≡ c = omega arith in ap₂ bits m e ∙ sym (append-nil (bits n c))
bits-shift (suc k) n c =
    let m : suc k + n ≡ suc (k + n) = omega arith in
    let e : c * 2 ^ suc k ≡ c * 2 ^ k * 2 + 0 = double c k in
    ap₂ bits m e
    ∙ (bits-double (k + n) (c * 2 ^ k) 0 (omega arith)
        ∙ (ap (λ t. t ++ zeros 1) (bits-shift k n c)
            ∙ (append_assoc (bits n c) (zeros k) (zeros 1)
                ∙ ap (λ t. bits n c ++ t) (zeros-snoc k))))
  where
    double : (c k : ℕ) → c * 2 ^ suc k ≡ c * 2 ^ k * 2 + 0
    double c k = grind (arith, pow-succ')

-- The last byte, filled up with zeros.
pub last_byte :
    (n c : ℕ) → n < 8 → c < 2 ^ n → bits 8 (c * 2 ^ (8 - n) % 256) ≡ bits n c ++ replicate (8 - n) 0
last_byte n c h small =
    let k : n + (8 - n) ≡ 8 = omega arith in
    let e : 2 ^ n * 2 ^ (8 - n) ≡ 2 ^ 8 = sym (pow_add 2 n (8 - n)) ∙ ap (λ t. 2 ^ t) k in
    let l : c * 2 ^ (8 - n) < 2 ^ n * 2 ^ (8 - n) =
      mul-lt-mul_of_pos_right small (pow_pos (8 - n)) in
    let m : 8 ≡ 8 - n + n = omega arith in
    let r : c * 2 ^ (8 - n) % 256 ≡ c * 2 ^ (8 - n) = omega arith in
    ap₂ bits m r ∙ bits-shift (8 - n) n c

pub length-bits : (n v : ℕ) → length (bits n v) ≡ n
unfolding bits
length-bits zero v = refl
length-bits (suc n) v = omega (arith, length-bits n v)

pub length-bits_of : (xs : Bytes) → length (bits_of xs) ≡ 8 * length xs
unfolding bits_of
length-bits_of [] = refl
length-bits_of (x ∷ xs) =
    omega (arith, length-append (bits 8 x) (bits_of xs), length-bits 8 x, length-bits_of xs)

pub length-sample_bits : (xs : List ℕ) → length (sample_bits xs) ≡ 16 * length xs
unfolding sample_bits
length-sample_bits [] = refl
length-sample_bits (x ∷ xs) = omega (
  arith,
  length-append (bits 16 (x % 2 ^ 16)) (sample_bits xs),
  length-bits 16 (x % 2 ^ 16),
  length-sample_bits xs,
)
