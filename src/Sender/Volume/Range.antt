-- ===== src/Sender/Volume/Range.antt =====
-- The range of the volumes that `setVolume` of src/raop_sender.cpp sends.
use airplay2_sender_cpp.Base.{ℕ, ◌^◌, ◌<◌, ◌≡◌, refl, true, arith, inl, inr, ◌⊎◌, if-split, ◌∙◌}
use airplay2_sender_cpp.Doubles
use airplay2_sender_cpp.Doubles.{Double, scale}
use airplay2_sender_cpp.Doubles.Limits.{
  AtMost, NotBelow, NotAbove, mul-AtMost, mul-sign, mul-zero, div-AtMost, div-sign, div-zero,
  sub-AtMost, less-NotBelow, less-AtMost, of_nat-AtMost,
}
use airplay2_sender_cpp.Sender.Volume.{clamped, attenuation, dbfs}

-- A percentage.
IsPercent : Double → Type 0
IsPercent p = NotBelow p × AtMost 100 p

clamped-IsPercent : (p : Double) → IsPercent (clamped p)
unfolding clamped IsPercent
clamped-IsPercent p =
    if-split IsPercent (Doubles.less p (Doubles.of_nat 0)) _ _
      (λ e. of_nat-AtMost 0 100 (omega arith) (omega arith))
      (λ e.
        if-split IsPercent (Doubles.less (Doubles.of_nat 100) p) _ _
          (λ f. of_nat-AtMost 100 100 (omega arith) (omega arith))
          (λ f. let least = less-NotBelow p e in (least, less-AtMost p 100 (omega arith) f least)))

NotBelow-mul :
    (p : Double) (k : ℕ) → k < 2 ^ 53 → NotBelow p → NotBelow (Doubles.mul p (Doubles.of_nat k))
NotBelow-mul p k h (inl sign) = inl (mul-sign p k ∙ sign)
NotBelow-mul p k h (inr none) = inr (mul-zero p k h none)

NotAbove-div :
    (p : Double) (k : ℕ)
    → 0 < k
    → k < 2 ^ 53
    → NotAbove p
    → NotAbove (Doubles.div p (Doubles.of_nat k))
NotAbove-div p k h l (inl sign) = inl (div-sign p k ∙ sign)
NotAbove-div p k h l (inr none) = inr (div-zero p k h l none)

attenuation-range :
    (p : Double) → IsPercent p → AtMost 30 (attenuation p) × NotAbove (attenuation p)
unfolding attenuation IsPercent
attenuation-range p (least, most) =
    let tripled = Doubles.mul p (Doubles.of_nat 3) in
    let (size, sign) =
      sub-AtMost tripled 300 (omega arith) (NotBelow-mul p 3 (omega arith) least)
        (mul-AtMost p 100 3 (omega arith) (omega arith) most) in
    let lowered = Doubles.sub tripled (Doubles.of_nat 300) in
    (
      div-AtMost lowered 30 10 (omega arith) (omega arith) (omega arith) size,
      NotAbove-div lowered 10 (omega arith) (omega arith) sign,
    )

-- The mute value, or at most 30 dB below zero and not above it.
abbrev pub InRange : Double → Type 0
InRange v = (v ≡ Doubles.of_int true 144) ⊎ (AtMost 30 v × NotAbove v)

-- Whatever number `setVolume` is called with, the decibels that it computes are the mute value of
-- -144, or lie between -30 and 0.
pub dbfs-InRange : (pct : Double) → InRange (dbfs pct)
unfolding dbfs
dbfs-InRange pct =
    if-split InRange
      (Doubles.less (clamped pct) (Doubles.div (Doubles.of_nat 1) (Doubles.of_nat 100))) _ _
      (λ e. inl refl) (λ e. inr (attenuation-range (clamped pct) (clamped-IsPercent pct)))
