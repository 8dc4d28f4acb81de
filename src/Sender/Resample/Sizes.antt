-- ===== src/Sender/Resample/Sizes.antt =====
-- The sizes of what `fillFrames_` of src/raop_sender.cpp yields and keeps.
use airplay2_sender_cpp.Ring.Pop.{Within, try_pop-Within}
use airplay2_sender_cpp.Base.{
  ==_iff, inr, inl, Bool-cases, ◌%◌, ◌-◌, length-drop, ℕ, zero, suc, ◌+◌, ◌*◌, ◌/◌, ◌≤◌, ◌≡◌,
  if◌then◌else◌, refl, ap, sym, ◌∙◌, subst, ◌++◌, [], ◌∷◌, Option, none, some, List, min, leb, ◌==◌,
  length, replicate, length-append, length-replicate, arith, if-both,
}
use airplay2_sender_cpp.Ring.{Ring, available_read, try_pop}
use airplay2_sender_cpp.Doubles
use airplay2_sender_cpp.Doubles.{Double}
use airplay2_sender_cpp.Sender.State.{Stream}
use airplay2_sender_cpp.Sender.Clock.{raop_rate}
use airplay2_sender_cpp.Sender.Resample.{
  in_buf_max_frames, padded, pass_through, produce, top_up, compact, resample, filled_from,
  fill_frames,
}

length-padded : (n : ℕ) (o : Option (List ℕ) × Ring ℕ) → Within n o.0 → length (padded n o).0 ≡ n
unfolding padded
length-padded n (none, r) h = length-replicate n 0
length-padded n (some xs, r) h = omega (
  arith,
  length-append xs (replicate (n - length xs) 0),
  length-replicate {A = ℕ} (n - length xs) 0,
)

popped : Option (List ℕ) → List ℕ
popped none = []
popped (some xs) = xs

-- The samples that there are for `want` frames: at 44100 Hz what the ring has, and at other rates
-- what interpolation makes of the staging buffer once that is topped up.
unfoldable pub available : ℕ → Stream → Option (Ring ℕ) → List ℕ
unfolding popped
available want st none = []
available want st (some r) =
    let step = Doubles.div (Doubles.of_nat st.input.input_rate) (Doubles.of_nat raop_rate) in
    if st.input.input_rate == raop_rate
    then popped (try_pop r (min (available_read r / 2) want * 2)).0
    else (produce want step (top_up st.input.in_buf r).0 st.input.src_phase).0

-- The samples that there are, and silence for the rest of `want` frames.
abbrev pub with_silence : ℕ → List ℕ → List ℕ
with_silence want xs = xs ++ replicate (want * 2 - length xs) 0

-- Silence alone.
replicate-all : (n : ℕ) → replicate {A = ℕ} n 0 ≡ replicate (n - 0) 0
replicate-all n = ap (λ k. replicate {A = ℕ} k 0) (omega arith)

length-popped : (n : ℕ) (o : Option (List ℕ)) → Within n o → length (popped o) ≤ n
unfolding popped
length-popped n none h = omega arith
length-popped n (some xs) h = h

popped-zero : (o : Option (List ℕ)) → Within 0 o → popped o ≡ []
unfolding popped
popped-zero none h = refl
popped-zero (some []) h = refl
popped-zero (some (x ∷ xs)) h = absurd (omega arith)

padded-popped :
    (n : ℕ) (o : Option (List ℕ) × Ring ℕ)
    → (padded n o).0 ≡ popped o.0 ++ replicate (n - length (popped o.0)) 0
unfolding padded popped
padded-popped n (none, r) = replicate-all n
padded-popped n (some xs, r) = refl

pass_through-popped :
    (want : ℕ) (r : Ring ℕ)
    → (pass_through want r).0
      ≡ with_silence want (popped (try_pop r (min (available_read r / 2) want * 2)).0)
unfolding pass_through
pass_through-popped want r =
    let n = min (available_read r / 2) want in
    elim (Bool-cases (n == 0)) [
      | inl e ↦
          let z : n ≡ 0 = (==_iff n 0).0 e in
          let none_left = popped-zero (try_pop r (n * 2)).0 (
            subst (λ m. Within m (try_pop r (n * 2)).0) (omega (arith, z))
              (try_pop-Within r (n * 2))) in
          rw e (replicate-all (want * 2) ∙ ap (with_silence want) (sym none_left))
      | inr e ↦ rw e (padded-popped (want * 2) (try_pop r (n * 2)))
    ]

length-produce :
    (wanted : ℕ) (step : Double) (buf : List ℕ) (phase : Double)
    → length (produce wanted step buf phase).0 ≤ wanted * 2
unfolding produce
length-produce zero step buf phase = omega arith
length-produce (suc wanted) step buf phase =
    if-both (λ (o : List ℕ × Double). length o.0 ≤ suc wanted * 2)
      (leb (length buf / 2) (Doubles.trunc phase + 1)) _ _ (omega arith)
      (omega (arith, length-produce wanted step buf (Doubles.add phase step)))

-- The staging buffer holds whole frames, at most 8192.
abbrev pub Staged : List ℕ → Type 0
Staged buf = (length buf % 2 ≡ 0) × (length buf ≤ in_buf_max_frames * 2)

top_up-Staged : (buf : List ℕ) (r : Ring ℕ) → Staged buf → Staged (top_up buf r).0
unfolding top_up
top_up-Staged buf r h =
    let pull = min (in_buf_max_frames - length buf / 2) (available_read r / 2) in
    let got = (padded (pull * 2) (try_pop r (pull * 2))).0 in
    let sized = length-padded (pull * 2) (try_pop r (pull * 2)) (try_pop-Within r (pull * 2)) in
    if-both (λ (o : List ℕ × Ring ℕ). Staged o.0) (pull == 0) _ _ h
      (
        omega (arith, h, length-append buf got, sized),
        omega (arith, h, length-append buf got, sized),
      )

compact-Staged : (buf : List ℕ) (phase : Double) → Staged buf → Staged (compact buf phase).0
unfolding compact
compact-Staged buf phase h =
    let dropped = min (Doubles.trunc phase) (length buf / 2) in
    if-both (λ (o : List ℕ × Double). Staged o.0) (Doubles.trunc phase == 0) _ _ h
      (
        omega (arith, h, length-drop (dropped * 2) buf),
        omega (arith, h, length-drop (dropped * 2) buf),
      )

-- What is left alone: all but the ring, the staging buffer and the phase.
abbrev pub Keeps : Stream → Stream → Type 0
Keeps st t = t ≡ record st {
  ring = t.ring;
  input = record (st.input) { in_buf = t.input.in_buf; src_phase = t.input.src_phase };
}

filled_from-Keeps :
    (want : ℕ) (st : Stream) (ring : Option (Ring ℕ)) → Keeps st (filled_from want st ring).1
unfolding filled_from resample
filled_from-Keeps want st none = refl
filled_from-Keeps want st (some r) =
    if-both (λ (o : List ℕ × Stream). Keeps st o.1) (st.input.input_rate == raop_rate) _ _ refl refl

pub fill_frames-Keeps : (want : ℕ) (st : Stream) → Keeps st (fill_frames want st).1
unfolding fill_frames
fill_frames-Keeps want st = filled_from-Keeps want st st.ring

length-available :
    (want : ℕ) (st : Stream) (ring : Option (Ring ℕ)) → length (available want st ring) ≤ want * 2
unfolding available
length-available want st none = omega arith
length-available want st (some r) =
    let n = min (available_read r / 2) want in
    let step = Doubles.div (Doubles.of_nat st.input.input_rate) (Doubles.of_nat raop_rate) in
    if-both (λ (xs : List ℕ). length xs ≤ want * 2) (st.input.input_rate == raop_rate) _ _
      (omega (arith, length-popped (n * 2) (try_pop r (n * 2)).0 (try_pop-Within r (n * 2))))
      (length-produce want step (top_up st.input.in_buf r).0 st.input.src_phase)

-- `want` frames, which are what there is and then silence, a staging buffer within its bound, and
-- the rest of the stream as it was.
abbrev pub Fills : ℕ → Stream → List ℕ × Stream → Type 0
Fills want st (samples, t) =
    (length samples ≡ want * 2)
    × (samples ≡ with_silence want (available want st st.ring))
    × Staged t.input.in_buf
    × Keeps st t

filled_from-available :
    (want : ℕ) (st : Stream) (ring : Option (Ring ℕ))
    → (filled_from want st ring).0 ≡ with_silence want (available want st ring)
unfolding filled_from resample available
filled_from-available want st none = replicate-all (want * 2)
filled_from-available want st (some r) = elim (Bool-cases (st.input.input_rate == raop_rate)) [
  | inl e ↦ rw e (pass_through-popped want r)
  | inr e ↦ rw e refl
]

filled_from-Staged :
    (want : ℕ) (st : Stream) (ring : Option (Ring ℕ))
    → Staged st.input.in_buf
    → Staged (filled_from want st ring).1.input.in_buf
unfolding filled_from resample
filled_from-Staged want st none h = h
filled_from-Staged want st (some r) h =
    let step = Doubles.div (Doubles.of_nat st.input.input_rate) (Doubles.of_nat raop_rate) in
    let staged = top_up st.input.in_buf r in
    let made = produce want step staged.0 st.input.src_phase in
    if-both (λ (o : List ℕ × Stream). Staged o.1.input.in_buf) (st.input.input_rate == raop_rate) _
      _ h (compact-Staged staged.0 made.1 (top_up-Staged st.input.in_buf r h))

-- From a stream whose staging buffer holds whole frames, at most 8192, and at any input rate,
-- `fillFrames_` yields exactly the frames that are wanted: first the samples that there are, which
-- are those of the ring at 44100 Hz and interpolated ones at any other rate, and then zeros. It
-- leaves whole frames, at most 8192, in the staging buffer, and of the stream it changes nothing
-- but the ring, that buffer and the phase.
pub fill_frames-Fills :
    (want : ℕ) (st : Stream) → Staged st.input.in_buf → Fills want st (fill_frames want st)
unfolding fill_frames
fill_frames-Fills want st h =
    let samples = available want st st.ring in
    let filled = filled_from-available want st st.ring in
    (
      ap length filled
          ∙ omega (
            arith,
            length-available want st st.ring,
            length-append samples (replicate (want * 2 - length samples) 0),
            length-replicate {A = ℕ} (want * 2 - length samples) 0,
          ),
      filled,
      filled_from-Staged want st st.ring h,
      fill_frames-Keeps want st,
    )
