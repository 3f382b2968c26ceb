-- ===== src/Listing/Opcodes.antt =====
-- The table OPLEN of instruction lengths of deep_u17_analysis.py, and the instruction set of the
-- 8051 family to compare it with.
pub mod Standard
use sc_adat_appliance.Base.{
  ℕ, zero, suc, ◌%◌, ◌<◌, ◌≡◌, ◌↔◌, refl, Bool, true, false, not, ◌&&◌, ◌||◌, Option, none, some,
  List, [], ◌∷◌, ◌==◌, leb, if◌then◌else◌, length, get_elem?, arith,
}

unfoldable pub is_in : ℕ → List ℕ → Bool
is_in n [] = false
is_in n (m ∷ ms) = m == n || is_in n ms

abbrev pub two_bytes : List ℕ
two_bytes =
    0x01 ∷ 0x05 ∷ 0x11 ∷ 0x15 ∷ 0x21 ∷ 0x25 ∷ 0x31 ∷ 0x35 ∷ 0x41 ∷ 0x42 ∷ 0x45 ∷ 0x51 ∷ 0x52 ∷ 0x55
    ∷ 0x61 ∷ 0x62 ∷ 0x65 ∷ 0x71 ∷ 0x72 ∷ 0x74 ∷ 0x76 ∷ 0x77 ∷ 0x78 ∷ 0x79 ∷ 0x7A ∷ 0x7B ∷ 0x7C
    ∷ 0x7D ∷ 0x7E ∷ 0x7F ∷ 0x81 ∷ 0x82 ∷ 0x86 ∷ 0x87 ∷ 0x88 ∷ 0x89 ∷ 0x8A ∷ 0x8B ∷ 0x8C ∷ 0x8D
    ∷ 0x8E ∷ 0x8F ∷ 0x91 ∷ 0x92 ∷ 0x94 ∷ 0x95 ∷ 0xA0 ∷ 0xA1 ∷ 0xA2 ∷ 0xA6 ∷ 0xA7 ∷ 0xA8 ∷ 0xA9
    ∷ 0xAA ∷ 0xAB ∷ 0xAC ∷ 0xAD ∷ 0xAE ∷ 0xAF ∷ 0xB0 ∷ 0xB1 ∷ 0xB2 ∷ 0xC0 ∷ 0xC1 ∷ 0xC2 ∷ 0xC5
    ∷ 0xD0 ∷ 0xD1 ∷ 0xD2 ∷ 0xE1 ∷ 0xE5 ∷ 0xF1 ∷ 0xF5 ∷ []

abbrev pub three_bytes : List ℕ
three_bytes =
    0x02 ∷ 0x10 ∷ 0x12 ∷ 0x20 ∷ 0x30 ∷ 0x43 ∷ 0x53 ∷ 0x63 ∷ 0x75 ∷ 0x85 ∷ 0x90 ∷ 0xB4 ∷ 0xB5 ∷ 0xB6
    ∷ 0xB7 ∷ 0xB8 ∷ 0xB9 ∷ 0xBA ∷ 0xBB ∷ 0xBC ∷ 0xBD ∷ 0xBE ∷ 0xBF ∷ 0xD5 ∷ []

-- OPLEN; the second loop writes over the first.
unfoldable pub oplen : ℕ → ℕ
unfolding is_in
oplen op = if is_in op three_bytes then 3 else if is_in op two_bytes then 2 else 1

unfoldable pub size_at : Option ℕ → ℕ
size_at none = 1
size_at (some op) = oplen op

abbrev pub byte_at : List ℕ → Option ℕ → Option ℕ
byte_at rom none = none
byte_at rom (some address) = get_elem? rom address

unfoldable pub instruction_length : List ℕ → Option ℕ → ℕ
unfolding size_at
instruction_length rom address = size_at (byte_at rom address)
