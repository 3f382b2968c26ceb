-- ===== src/Edges.antt =====
-- dyaxis/host/nano_edge_capture.py: `parse_capture` and `level_at`. A read is of what is left of
-- the file, and the text of an error is left out.
pub mod Frames
pub mod Printed
mod Tests
use sc_adat_appliance.Base.{
  ℕ, ◌+◌, ◌-◌, ◌*◌, ◌%◌, zero, suc, Bool, true, false, not, ◌||◌, Option, none, some, List, [], ◌∷◌,
  ◌++◌, length, take, drop, ltb, leb, ◌==◌, if◌then◌else◌,
}
use sc_adat_appliance.Base.Bytes.{same}
use sc_adat_appliance.Base.Result.{Result, ok, err}
use sc_adat_appliance.Base.Sealed.{◌>>=◌, ◌>>◌, raise_if}
use sc_adat_appliance.Base.Text.{codes}

-- MAGIC
abbrev pub magic : List ℕ
magic = codes "DYAXEDG1"

pub record Capture : Type 0 where
  pub timer_hz : ℕ
  pub initial_level : ℕ
  pub edges : List (ℕ × ℕ)
  pub overflow : ℕ
  pub stopped : Bool

-- The ValueErrors, the errors of `struct` and of an index; `no_fuel` is never met.
pub data EdgeError : Type 0 where
  not_a_capture unsupported truncated_edge struct_error index_error no_fuel : EdgeError
  unknown_frame : ℕ → EdgeError

-- `data.find(MAGIC)`: what begins with it.
unfoldable pub find : List ℕ → Option (List ℕ)
find [] = none
find (b ∷ bs) = let later = find bs in if same (take 8 (b ∷ bs)) magic then some (b ∷ bs) else later

unfoldable pub u16 : List ℕ → Result EdgeError (ℕ × List ℕ)
u16 (a ∷ b ∷ rest) = ok (a + 256 * b, rest)
u16 bs = err struct_error

unfoldable pub u32 : List ℕ → Result EdgeError (ℕ × List ℕ)
u32 (a ∷ b ∷ c ∷ d ∷ rest) = ok (a + 256 * (b + 256 * (c + 256 * d)), rest)
u32 bs = err struct_error

-- `data[pos]`
abbrev pub next_byte : EdgeError → List ℕ → Result EdgeError (ℕ × List ℕ)
next_byte e [] = err e
next_byte e (b ∷ bs) = ok (b, bs)

-- The local variables of the loop.
pub record Reader : Type 0 where
  pub initial : ℕ
  pub edges : List (ℕ × ℕ)
  pub tick : ℕ
  pub overflow : ℕ
  pub stopped : Bool

-- One round of the loop, from the frame's byte on.
unfoldable pub read_frame : ℕ → List ℕ → Reader → Result EdgeError (Reader × List ℕ)
read_frame frame bs r =
    if frame == 0xA1
    then (u32 bs >>= λ at.
        next_byte index_error at.1 >>= λ level. ok (record r { initial = level.0 }, level.1))
    else if frame == 0xA2
    then (u32 bs >>= λ delta. next_byte truncated_edge delta.1 >>= λ level. ok (
      record r { edges = r.edges ++ (r.tick + delta.0, level.0 % 2) ∷ []; tick = r.tick + delta.0 },
      level.1,
    ))
    else if frame == 0xA3
    then (u32 bs >>= λ lost. u32 lost.1 >>= λ at. ok (record r { overflow = lost.0 }, at.1))
    else if frame == 0xA4
    then (u32 bs >>= λ at.
        u32 at.1 >>= λ lost. ok (record r { overflow = lost.0; stopped = true }, lost.1))
    else err (unknown_frame frame)

-- `while pos < len(data)`, on as much fuel as there are bytes.
unfoldable pub read_frames : ℕ → List ℕ → Reader → Result EdgeError Reader
read_frames fuel [] r = ok r
read_frames zero (frame ∷ bs) r = err no_fuel
read_frames (suc fuel) (frame ∷ bs) r =
    read_frame frame bs r >>= λ after. read_frames fuel after.1 after.0

abbrev pub captured : ℕ → Reader → Capture
captured timer_hz r = record {
  timer_hz = timer_hz;
  initial_level = r.initial;
  edges = r.edges;
  overflow = r.overflow;
  stopped = r.stopped;
}

abbrev pub reader : ℕ → Reader
reader level = record { initial = level; edges = []; tick = 0; overflow = 0; stopped = false }

-- The header behind the magic bytes, and the frames.
unfoldable pub read_header : List ℕ → Result EdgeError Capture
read_header bs = do
  version ← next_byte index_error bs
  raise_if (not (version.0 == 1)) unsupported
  header ← next_byte index_error version.1
  raise_if (not (header.0 == 0xA0)) unsupported
  timer ← u32 header.1
  level ← next_byte index_error timer.1
  extra ← u16 (drop 1 level.1)
  r ← read_frames (length extra.1) extra.1 (reader level.0)
  ok (captured timer.0 r)

abbrev pub with_header : Option (List ℕ) → Result EdgeError Capture
with_header none = err not_a_capture
with_header (some bs) = read_header (drop 8 bs)

unfoldable pub parse_capture : List ℕ → Result EdgeError Capture
parse_capture bytes = if ltb (length bytes) 18 then err not_a_capture else with_header (find bytes)

-- The level after the edges up to a time. `is_later` says that an edge comes after it: the time
-- may be a float.
unfoldable pub level_after : (ℕ → Bool) → ℕ → List (ℕ × ℕ) → ℕ
level_after is_later level [] = level
level_after is_later level ((tick, edge_level) ∷ edges) =
    let later = level_after is_later edge_level edges in if is_later tick then level else later

-- `level ^ polarity`
abbrev pub flipped : ℕ → Bool → ℕ
flipped level false = level
flipped level true = if level % 2 == 0 then level + 1 else level - 1

unfoldable pub level_at : Capture → (ℕ → Bool) → Bool → ℕ
level_at c is_later polarity = flipped (level_after is_later c.initial_level c.edges) polarity
