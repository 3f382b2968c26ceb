-- ===== src/Listing/Tests.antt =====
-- Runs of the listing's analyses, on the listings of test_deep_u17_analysis.py moved to address 0,
-- and the theorems at these inputs.
use mathlib.Core.List.{Memᴰ}
use sc_adat_appliance.Base.{
  ℕ, ◌≡◌, ◌↔◌, refl, false, none, some, List, [], ◌∷◌, get_elem?, take, drop, slice, replicate,
  length, arith,
}
use sc_adat_appliance.Base.Dict.{get}
use sc_adat_appliance.Base.Bytes.{same}
use sc_adat_appliance.Base.Cells.{set}
use sc_adat_appliance.Base.Regex.{match, search_in, last_of}
use sc_adat_appliance.Base.Text.{Text, codes, strip, strip_right, strip_left, is_space}
use sc_adat_appliance.Listing.{Row, Names}
use sc_adat_appliance.Listing.Control.{roots, successors}
use sc_adat_appliance.Listing.Parse.{Listing, parse_asm}
use sc_adat_appliance.Listing.Parse.Ordered.{IsOrdered, parse_asm-IsOrdered}
use sc_adat_appliance.Listing.Opcodes.{oplen, is_in}
use sc_adat_appliance.Listing.Opcodes.Standard.{standard, missed, oplen-standard}
use sc_adat_appliance.Listing.Flow.{
  Cell, finished, dataflow, seed, loop, expand, offer_all, offer, changes, merge,
}
use sc_adat_appliance.Listing.Pointer.{
  Value, known, Xref, Xrefs, read, access_of, dptr_dataflow, xdata_xrefs,
}
use sc_adat_appliance.Listing.Pointer.Walks.{PointerWalk, dptr_dataflow_returns, xdata_xrefs-Walks}
use sc_adat_appliance.Listing.Registers.{Register, r1, r2, Registers, assign, unknown_registers}
use sc_adat_appliance.Listing.Calls.{Call, Resolved, external_calls, resolved_register_abi}
use sc_adat_appliance.Listing.Calls.Walks.{RegisterWalk, resolved_register_abi-Walks}

-- The bytes of the listing below.
abbrev rom : List ℕ
rom = 0x90 ∷ 0x12 ∷ 0x34 ∷ 0xE0 ∷ 0xA3 ∷ 0xE0 ∷ 0xF5 ∷ 0x82 ∷ 0xE0 ∷ []

abbrev lines : List Text
lines =
    codes "org 0h"
    ∷ codes "start:"
    ∷ codes "    mov DPTR, #dptr_1234"
    ∷ codes "    movx A, @DPTR"
    ∷ codes "    inc DPTR"
    ∷ codes "    movx A, @DPTR"
    ∷ codes "    mov DPL, A"
    ∷ codes "    movx A, @DPTR"
    ∷ []

abbrev row : ℕ → ℕ → ℕ → Text → Row
row address ordinal size text = record {
  address = some address;
  text = text;
  function = codes "start";
  ordinal = ordinal;
  size = size;
}

abbrev rows : List Row
rows =
    row 0 0 3 (codes "mov DPTR, #dptr_1234")
    ∷ row 3 1 1 (codes "movx A, @DPTR")
    ∷ row 4 2 1 (codes "inc DPTR")
    ∷ row 5 3 1 (codes "movx A, @DPTR")
    ∷ row 6 4 2 (codes "mov DPL, A")
    ∷ row 8 5 1 (codes "movx A, @DPTR")
    ∷ []

abbrev labels : Names
labels = (codes "start", 0) ∷ []

abbrev listing : Listing
listing = record {
  rows = rows;
  labels = labels;
  label_addresses = labels;
  current = codes "start";
  cursor = some 9;
}

parse_asm-lines : parse_asm rom lines ≡ some listing
unfolding parse_asm match search_in is_space get take strip strip_right strip_left get_elem? oplen
parse_asm-lines = refl

parse_asm-IsOrdered_example : IsOrdered listing
parse_asm-IsOrdered_example = parse_asm-IsOrdered rom lines listing parse_asm-lines

abbrev second : Xref
second = record { address = 0x1235; access = read; row = row 5 3 1 (codes "movx A, @DPTR") }

abbrev xrefs : Xrefs
xrefs = record {
  resolved =
      record { address = 0x1234; access = read; row = row 3 1 1 (codes "movx A, @DPTR") }
      ∷ second
      ∷ [];
  unresolved = row 8 5 1 (codes "movx A, @DPTR") ∷ [];
}

xdata_xrefs_rows : xdata_xrefs rows labels ≡ some xrefs
unfolding xdata_xrefs dataflow seed roots last_of get_elem? replicate loop expand set offer_all
    successors offer changes merge get take is_space search_in
xdata_xrefs_rows = refl

dptr_dataflow_returns_example :
    (states : List (Cell Value)) × (dptr_dataflow rows labels ≡ finished states)
dptr_dataflow_returns_example = dptr_dataflow_returns rows labels (omega arith) (omega arith, tt)

xdata_xrefs-Walks_example :
    (i : ℕ) × (get_elem? rows i ≡ some second.row)
    × (access_of second.row.text ≡ some read)
    × ((root : ℕ) (b : Value)
        → Memᴰ root (roots rows labels)
        → PointerWalk rows labels root i b
        → b ≡ known 0x1235)
xdata_xrefs-Walks_example =
    xdata_xrefs-Walks rows labels xrefs second xdata_xrefs_rows (Memᴰ.tail (Memᴰ.head refl))

-- A call of the page above the ROM with two registers set.
abbrev calling : List Row
calling =
    row 0 0 2 (codes "mov R1, #21h")
    ∷ row 2 1 2 (codes "mov R2, #43h")
    ∷ row 4 2 3 (codes "lcall jump_FE06")
    ∷ row 7 3 1 (codes "ret")
    ∷ []

abbrev call : Call
call = record { row = row 4 2 3 (codes "lcall jump_FE06"); target = 0xFE06 }

external_calls-calling : external_calls calling ≡ call ∷ []
unfolding external_calls search_in match is_space get take
external_calls-calling = refl

abbrev reported : Resolved
reported = record {
  call = call;
  index = 2;
  values = assign r2 (known 0x43) (assign r1 (known 0x21) unknown_registers);
  dptr = none;
  pointer = some 0x4321;
  post = codes "ret" ∷ [];
}

resolved_register_abi-calling :
    resolved_register_abi calling labels (call ∷ []) (replicate (length calling) none)
    ≡ some (reported ∷ [])
unfolding resolved_register_abi dataflow seed roots last_of get_elem? replicate loop expand set
    offer_all successors offer changes merge get take is_space search_in match assign
    unknown_registers slice drop same
resolved_register_abi-calling = refl

resolved_register_abi-Walks_example :
    (here : Row) × (get_elem? calling 2 ≡ some here)
    × (here.address ≡ some 4)
    × ((root : ℕ) (s : Registers) (q : Register) (n : ℕ)
        → Memᴰ root (roots calling labels)
        → RegisterWalk calling labels root 2 s
        → reported.values q ≡ known n
        → s q ≡ known n)
resolved_register_abi-Walks_example =
    resolved_register_abi-Walks calling labels (call ∷ []) (replicate (length calling) none)
      (reported ∷ []) reported resolved_register_abi-calling (Memᴰ.head refl)

oplen-standard_example : (oplen 0x24 ≡ standard 0x24) ↔ (is_in 0x24 missed ≡ false)
oplen-standard_example = oplen-standard 0x24 (omega arith)
