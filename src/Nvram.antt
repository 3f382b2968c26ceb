-- ===== src/Nvram.antt =====
-- dyaxis/analysis/analyze_ds1230.py: `printable_runs`, `nonzero_regions` and `fe_trampolines`.
-- Addresses are numbers, where the code prints them in hexadecimal.
pub mod Regions
mod Tests
use sc_adat_appliance.Base.{
  ℕ, ◌+◌, ◌-◌, ◌*◌, zero, suc, Bool, true, false, not, ◌&&◌, Option, none, some, List, [], ◌∷◌,
  ◌++◌, get_elem?, slice, ltb, leb, ◌==◌, if◌then◌else◌,
}
use sc_adat_appliance.Base.Result.{Result, ok, err}

-- A run from its start up to its end, and at least `minimum` long.
abbrev pub reported : ℕ → ℕ → ℕ → List (ℕ × ℕ) → List (ℕ × ℕ)
reported minimum start end runs = if leb minimum (end - start) then (start, end) ∷ runs else runs

-- The loop over the bytes, from an index on; `start` is where the run began that is not over.
unfoldable pub scan : (ℕ → Bool) → ℕ → ℕ → Option ℕ → List ℕ → List (ℕ × ℕ)
scan is_in minimum index start [] = []
scan is_in minimum index none (b ∷ bs) =
    let begun = scan is_in minimum (index + 1) (some index) bs in
    let outside = scan is_in minimum (index + 1) none bs in if is_in b then begun else outside
scan is_in minimum index (some start) (b ∷ bs) =
    let inside = scan is_in minimum (index + 1) (some start) bs in
    let after = scan is_in minimum (index + 1) none bs in
    if is_in b then inside else reported minimum start index after

-- `enumerate(data + b"\0")`
abbrev pub runs : (ℕ → Bool) → ℕ → List ℕ → List (ℕ × ℕ)
runs is_in minimum bytes = scan is_in minimum 0 none (bytes ++ 0 ∷ [])

abbrev pub is_printable : ℕ → Bool
is_printable b = leb 32 b && ltb b 127

-- The start and the text of each run.
abbrev pub with_text : List ℕ → List (ℕ × ℕ) → List (ℕ × List ℕ)
with_text bytes [] = []
with_text bytes ((start, end) ∷ rest) = (start, slice start end bytes) ∷ with_text bytes rest

unfoldable pub printable_runs : List ℕ → ℕ → List (ℕ × List ℕ)
printable_runs bytes minimum = with_text bytes (runs is_printable minimum bytes)

pub data Kind : Type 0 where
  application_residue trampoline_table persistent_state unexplained : Kind

-- `end` is the last offset of the region.
pub record Region : Type 0 where
  pub start : ℕ
  pub end : ℕ
  pub length : ℕ
  pub kind : Kind
  pub is_certain : Bool

abbrev pub classified : ℕ → ℕ → Kind × Bool
classified start end =
    if leb end 0x7DFF
    then (application_residue, true)
    else if ltb start 0x7E80
    then (trampoline_table, true)
    else if ltb start 0x7F00
    then (persistent_state, false)
    else (unexplained, false)

abbrev pub as_regions : List (ℕ × ℕ) → List Region
as_regions [] = []
as_regions ((start, end) ∷ rest) =
    let kind = classified start end in
    record {
      start = start;
      end = end - 1;
      length = end - start;
      kind = kind.0;
      is_certain = kind.1;
    }
    ∷ as_regions rest

abbrev pub is_nonzero : ℕ → Bool
is_nonzero b = not (b == 0)

unfoldable pub nonzero_regions : List ℕ → List Region
nonzero_regions bytes = as_regions (runs is_nonzero 0 bytes)

-- An index behind the end of the data.
pub data ReadError : Type 0 where
  index_error : ReadError

pub record Trampoline : Type 0 where
  pub cpu_address : ℕ
  pub file_offset : ℕ
  pub target : ℕ

abbrev pub and_entry :
    ℕ → Option ℕ → Option ℕ → List Trampoline → Result ReadError (List Trampoline)
and_entry cpu_address (some high) (some low) later = ok (
    record {
      cpu_address = cpu_address;
      file_offset = cpu_address - 0x8000;
      target = high * 256 + low;
    }
    ∷ later)
and_entry cpu_address none low later = err index_error
and_entry cpu_address (some high) none later = err index_error

abbrev pub entry_at :
    List ℕ → ℕ → Option ℕ → Result ReadError (List Trampoline) → Result ReadError (List Trampoline)
entry_at bytes cpu_address none later = err index_error
entry_at bytes cpu_address (some opcode) (err e) = err e
entry_at bytes cpu_address (some opcode) (ok later) =
    if opcode == 2
    then and_entry cpu_address (get_elem? bytes (cpu_address - 0x8000 + 1))
        (get_elem? bytes (cpu_address - 0x8000 + 2)) later
    else ok later

-- `for cpu_address in range(0xFE00, 0xFE81, 3)`, from an address on; an IndexError is the same
-- wherever it comes from.
unfoldable pub trampolines_from : List ℕ → ℕ → ℕ → Result ReadError (List Trampoline)
trampolines_from bytes zero cpu_address = ok []
trampolines_from bytes (suc rounds) cpu_address =
    entry_at bytes cpu_address (get_elem? bytes (cpu_address - 0x8000))
      (trampolines_from bytes rounds (cpu_address + 3))

unfoldable pub fe_trampolines : List ℕ → Result ReadError (List Trampoline)
fe_trampolines bytes = trampolines_from bytes 43 0xFE00
