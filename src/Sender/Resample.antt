-- ===== src/Sender/Resample.antt =====
-- `fillFrames_` of src/raop_sender.cpp: audio from the ring as it is, or resampled to 44100 Hz.
pub mod Between
pub mod Interpolation
pub mod Sizes
pub mod Tests
use airplay2_sender_cpp.Base.{
  ℕ, zero, suc, ◌+◌, ◌-◌, ◌*◌, ◌/◌, ◌%◌, ◌^◌, Bool, true, false, List, [], ◌∷◌, ◌++◌, Option, none,
  some, get_or, length, drop, replicate, min, ltb, leb, ◌==◌, if◌then◌else◌,
}
use airplay2_sender_cpp.Ring.{Ring, available_read, try_pop}
use airplay2_sender_cpp.Doubles
use airplay2_sender_cpp.Doubles.{Double}
use airplay2_sender_cpp.Sender.State.{Input, Stream}
use airplay2_sender_cpp.Sender.Clock.{raop_rate}

abbrev pub in_buf_max_frames : ℕ
in_buf_max_frames = 8192

-- A span of `n` samples into which `tryPop` put what it has, over silence.
unfoldable pub padded : ℕ → Option (List ℕ) × Ring ℕ → List ℕ × Ring ℕ
padded n (none, r) = (replicate n 0, r)
padded n (some xs, r) = (xs ++ replicate (n - length xs) 0, r)

-- The branch for an input rate of 44100.
unfoldable pub pass_through : ℕ → Ring ℕ → List ℕ × Ring ℕ
unfolding padded
pass_through want r =
    let n = min (available_read r / 2) want in
    let got = padded (want * 2) (try_pop r (n * 2)) in
    if n == 0 then (replicate (want * 2) 0, r) else (got.0, got.1)

-- The value of a sample, an `int16_t`, as a double.
unfoldable pub of_sample : ℕ → Double
of_sample x = if ltb x (2 ^ 15) then Doubles.of_int false x else Doubles.of_int true (2 ^ 16 - x)

-- A sample from the lowest one on.
abbrev pub level : ℕ → ℕ
level x = (x + 2 ^ 15) % 2 ^ 16

-- `b - a` of two samples.
unfoldable pub difference : ℕ → ℕ → Double
difference a b =
    if ltb (level b) (level a)
    then Doubles.of_int true (level a - level b)
    else Doubles.of_int false (level b - level a)

-- `int16_t(x)`
unfoldable pub to_sample : Double → ℕ
to_sample x =
    if x.negative then (2 ^ 16 - Doubles.trunc x % 2 ^ 16) % 2 ^ 16 else Doubles.trunc x % 2 ^ 16

-- One sample between two neighbours.
unfoldable pub lerp : ℕ → ℕ → Double → ℕ
unfolding of_sample difference to_sample
lerp a b frac = to_sample (Doubles.add (of_sample a) (Doubles.mul (difference a b) frac))

-- The loop over `produced`, for the frames still wanted: the samples and the phase.
unfoldable pub produce : ℕ → Double → List ℕ → Double → List ℕ × Double
unfolding lerp
produce zero step buf phase = ([], phase)
produce (suc wanted) step buf phase =
    let i0 = Doubles.trunc phase in
    let frac = Doubles.sub phase (Doubles.of_nat i0) in
    let more = produce wanted step buf (Doubles.add phase step) in
    if leb (length buf / 2) (i0 + 1) then ([], phase) else (
      lerp (get_or buf (i0 * 2) 0) (get_or buf (i0 * 2 + 2) 0) frac
          ∷ (lerp (get_or buf (i0 * 2 + 1) 0) (get_or buf (i0 * 2 + 3) 0) frac ∷ more.0),
      more.1,
    )

-- The staging buffer with what the ring has, up to its bound.
unfoldable pub top_up : List ℕ → Ring ℕ → List ℕ × Ring ℕ
unfolding padded
top_up buf r =
    let pull = min (in_buf_max_frames - length buf / 2) (available_read r / 2) in
    let got = padded (pull * 2) (try_pop r (pull * 2)) in
    if pull == 0 then (buf, r) else (buf ++ got.0, got.1)

-- The buffer without the frames before the phase, and the phase from there.
unfoldable pub compact : List ℕ → Double → List ℕ × Double
compact buf phase =
    let keep_from = Doubles.trunc phase in
    let dropped = min keep_from (length buf / 2) in
    if keep_from == 0
    then (buf, phase)
    else (drop (dropped * 2) buf, Doubles.sub phase (Doubles.of_nat dropped))

-- The branch for other rates.
unfoldable pub resample : ℕ → Input → Ring ℕ → List ℕ × Input × Ring ℕ
unfolding produce top_up compact
resample want input r =
    let step = Doubles.div (Doubles.of_nat input.input_rate) (Doubles.of_nat raop_rate) in
    let (buf, left) = top_up input.in_buf r in
    let (samples, phase) = produce want step buf input.src_phase in
    let (kept, rebased) = compact buf phase in
    (
      samples ++ replicate (want * 2 - length samples) 0,
      record input { in_buf = kept; src_phase = rebased },
      left,
    )

filled_from : ℕ → Stream → Option (Ring ℕ) → List ℕ × Stream
unfolding pass_through resample
filled_from want st none = (replicate (want * 2) 0, st)
filled_from want st (some r) =
    let (plain, left) = pass_through want r in
    let (samples, input, rest) = resample want st.input r in
    if st.input.input_rate == raop_rate
    then (plain, record st { ring = some left })
    else (samples, record st { input = input; ring = some rest })

-- `fillFrames_`
unfoldable pub fill_frames : ℕ → Stream → List ℕ × Stream
unfolding filled_from
fill_frames want st = filled_from want st st.ring
