-- ===== src/Listing.antt =====
-- dyaxis/analysis/deep_u17_analysis.py: what it makes of the disassembly of the U17 ROM. Here are
-- the rows and the labels of the listing, as `parse_asm` reads them; Rows has their order, Flow the
-- work list of the data flow analyses, Pointer and Registers the two analyses, and Opcodes the
-- table of instruction lengths.
pub mod Flow
pub mod Opcodes
pub mod Parse
pub mod Control
pub mod Pointer
pub mod Registers
pub mod Calls
mod Tests
use sc_adat_appliance.Base.{
  ℕ, ◌+◌, Bool, Option, none, some, List, [], ◌∷◌, ◌==◌, leb, if◌then◌else◌, length, get_elem?,
}
use sc_adat_appliance.Base.Text.{Text, codes}
use sc_adat_appliance.Base.Bytes.{same}

-- `ordinal` is the row's own index. `address` is `none` where the cursor is lost.
pub record Row : Type 0 where
  pub address : Option ℕ
  pub text : Text
  pub function : Text
  pub ordinal : ℕ
  pub size : ℕ

-- A dictionary with texts as keys, in the order of insertion.
abbrev pub Names : Type 0
Names = List (Text × ℕ)

-- `d.get(key)`
unfoldable pub named : Text → Names → Option ℕ
named t [] = none
named t ((s, n) ∷ rest) = if same s t then some n else named t rest

-- `d[key] = value`
unfoldable pub rename : Text → ℕ → Names → Names
rename t n [] = (t, n) ∷ []
rename t n ((s, m) ∷ rest) = if same s t then (s, n) ∷ rest else (s, m) ∷ rename t n rest
