-- ===== src/Edges/Printed.antt =====
-- The stream of the edge probe, written frame by frame, is parsed as its edges.
use sc_adat_appliance.Base.{
  ℕ, ◌+◌, ◌*◌, ◌/◌, ◌%◌, ◌^◌, ◌≤◌, ◌<◌, zero, suc, ◌≡◌, refl, ◌∙◌, false, some, List, [], ◌∷◌, ◌++◌,
  arith, length, length-append, take, drop, ltb, All, ◌≢◌, Bool-cases, inl, inr,
}
use sc_adat_appliance.Base.Bytes.{same, same_iff}
use sc_adat_appliance.Base.Result.{ok}
use sc_adat_appliance.Base.Text.{codes}
use sc_adat_appliance.Base.Sealed.{bind_ok, guard_ok}
use sc_adat_appliance.Edges.{
  Capture, Reader, magic, find, u16, u32, read_frame, read_frames, reader, captured, read_header,
  parse_capture,
}
use sc_adat_appliance.Edges.Frames.{
  Frame, start_at, edge_after, overflow_of, stop_at, little, printed, stream, Fits, taken,
  all_taken, edges_of, level_of, lost_of, has_stop, edges-all_taken, initial-all_taken,
  overflow-all_taken, stopped-all_taken,
}

u32-little : (n : ℕ) (rest : List ℕ) → n < 2 ^ 32 → u32 (little n ++ rest) ≡ ok (n, rest)
unfolding u32
u32-little n rest h =
    let whole : n % 256
          + 256 * (n / 256 % 256 + 256 * (n / 65536 % 256 + 256 * (n / 16777216 % 256)))
        ≡ n =
      omega (arith, h) in
    rw whole refl

read_frame-printed :
    (f : Frame) (rest : List ℕ) (r : Reader) (fuel : ℕ)
    → Fits f
    → read_frames (suc fuel) (printed f ++ rest) r ≡ read_frames fuel rest (taken f r)
unfolding read_frames read_frame
read_frame-printed (start_at time level) rest r fuel h =
    bind_ok _ (bind_ok _ (u32-little time (level ∷ rest) h) (bind_ok _ refl refl)) refl
read_frame-printed (edge_after delta level) rest r fuel h =
    let bit : level % 2 ≡ level = omega (arith, h.1) in
    bind_ok _ (bind_ok _ (u32-little delta (level ∷ rest) h.0) (bind_ok _ refl refl)) (rw bit refl)
read_frame-printed (overflow_of lost time) rest r fuel h =
    bind_ok _
      (bind_ok _ (u32-little lost (little time ++ rest) h.0)
        (bind_ok _ (u32-little time rest h.1) refl))
      refl
read_frame-printed (stop_at time lost) rest r fuel h =
    bind_ok _
      (bind_ok _ (u32-little time (little lost ++ rest) h.0)
        (bind_ok _ (u32-little lost rest h.1) refl))
      refl

length-printed : (f : Frame) → 1 ≤ length (printed f)
length-printed (start_at time level) = omega arith
length-printed (edge_after delta level) = omega arith
length-printed (overflow_of lost time) = omega arith
length-printed (stop_at time lost) = omega arith

read_frames-stream :
    (fs : List Frame) (r : Reader) (fuel : ℕ)
    → All Fits fs
    → length (stream fs) ≤ fuel
    → read_frames fuel (stream fs) r ≡ ok (all_taken fs r)
read_frames-stream [] r zero fits enough = unfold read_frames in refl
read_frames-stream [] r (suc fuel) fits enough = unfold read_frames in refl
read_frames-stream (f ∷ fs) r zero fits enough =
    absurd (omega (arith, enough, length-printed f, length-append (printed f) (stream fs)))
read_frames-stream (f ∷ fs) r (suc fuel) fits enough =
    read_frame-printed f (stream fs) r fuel fits.0
    ∙ read_frames-stream fs (taken f r) fuel fits.1
        (omega (arith, enough, length-printed f, length-append (printed f) (stream fs)))

-- The header of a capture: the version, the timer's rate, the first level and three bytes more.
abbrev pub header : ℕ → ℕ → ℕ → ℕ → ℕ → List ℕ
header timer_hz level pad low high =
    magic ++ (1 ∷ 0xA0 ∷ little timer_hz ++ level ∷ pad ∷ low ∷ high ∷ [])

read_header-header :
    (timer_hz level pad low high : ℕ) (fs : List Frame)
    → timer_hz < 2 ^ 32
    → All Fits fs
    → read_header (drop 8 (header timer_hz level pad low high ++ stream fs))
      ≡ ok (captured timer_hz (all_taken fs (reader level)))
unfolding read_header drop u16
read_header-header timer_hz level pad low high fs fits all_fit = bind_ok _ refl (
    guard_ok _ refl (
      bind_ok _ refl (
        guard_ok _ refl (
          bind_ok _ (u32-little timer_hz (level ∷ pad ∷ low ∷ high ∷ stream fs) fits) (
            bind_ok _ refl (
              bind_ok _ refl (
                bind_ok _
                  (read_frames-stream fs (reader level) (length (stream fs)) all_fit (omega arith))
                  refl)))))))

-- The bytes that the probe sends, behind others.
abbrev pub sent : List ℕ → ℕ → ℕ → ℕ → ℕ → ℕ → List Frame → List ℕ
sent before timer_hz level pad low high fs =
    before ++ (header timer_hz level pad low high ++ stream fs)

-- The magic bytes stand at no place of the first bytes.
abbrev pub NoMagic : List ℕ → List ℕ → Type 0
NoMagic before rest =
    (i : ℕ) → i < length before → take 8 (drop i (before ++ rest)) ≢ codes "DYAXEDG1"

find-first :
    (before rest : List ℕ)
    → NoMagic before (magic ++ rest)
    → find (before ++ (magic ++ rest)) ≡ some (magic ++ rest)
unfolding find take
find-first [] rest h = unfold same in refl
find-first (b ∷ bs) rest h =
    let apart : same (take 8 (b ∷ (bs ++ (magic ++ rest)))) magic ≡ false =
      elim (Bool-cases (same (take 8 (b ∷ (bs ++ (magic ++ rest)))) magic)) [
        | inl e ↦ absurd (unfold drop in h 0 (omega arith) ((same_iff _ _).0 e))
        | inr e ↦ e
      ] in
    rw apart (find-first bs rest (λ i lt. unfold drop in h (suc i) (omega (arith, lt))))

-- A stream of the probe whose numbers fit is parsed, with any bytes before it in which no magic
-- bytes begin: to its timer's rate, to its edges at the sums of their ticks, to the level of its
-- last start, to the lost edges that it told last, and to whether it has a stop.
pub parse_capture-printed :
    (before : List ℕ) (timer_hz level pad low high : ℕ) (fs : List Frame)
    → NoMagic before (header timer_hz level pad low high ++ stream fs)
    → timer_hz < 2 ^ 32
    → All Fits fs
    → (c : Capture) × (parse_capture (sent before timer_hz level pad low high fs) ≡ ok c)
      × (c.timer_hz ≡ timer_hz)
      × (c.edges ≡ edges_of 0 fs)
      × (c.initial_level ≡ level_of level fs)
      × (c.overflow ≡ lost_of 0 fs)
      × (c.stopped ≡ has_stop false fs)
unfolding parse_capture
parse_capture-printed before timer_hz level pad low high fs first fits all_fit =
    let long : 18 ≤ length (sent before timer_hz level pad low high fs) =
      omega (arith, length-append before (header timer_hz level pad low high ++ stream fs)) in
    let whole : ltb (length (sent before timer_hz level pad low high fs)) 18 ≡ false =
      ground (arith, long) in
    let here : find (sent before timer_hz level pad low high fs)
        ≡ some (header timer_hz level pad low high ++ stream fs) =
      unfold drop in
      find-first before (drop 8 (header timer_hz level pad low high ++ stream fs)) first in
    (
      captured timer_hz (all_taken fs (reader level)),
      rw (whole, here) (read_header-header timer_hz level pad low high fs fits all_fit),
      refl,
      edges-all_taken fs (reader level),
      initial-all_taken fs (reader level),
      overflow-all_taken fs (reader level),
      stopped-all_taken fs (reader level),
    )
