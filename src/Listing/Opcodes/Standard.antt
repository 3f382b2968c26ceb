-- ===== src/Listing/Opcodes/Standard.antt =====
-- OPLEN against the instruction set of the 8051 family.
use sc_adat_appliance.Base.{
  ℕ, zero, suc, ◌/◌, ◌%◌, ◌<◌, ◌≡◌, ◌↔◌, refl, Bool, true, false, ◌&&◌, Option, none, some, List,
  [], ◌∷◌, ◌==◌, if◌then◌else◌, get_elem?, arith,
}
use sc_adat_appliance.Listing.Opcodes.{oplen, is_in}

-- The lengths of the opcodes with one low digit, by the high digit.
abbrev column : ℕ → List ℕ
column n =
    if n == 0
    then 1 ∷ 3 ∷ 3 ∷ 3 ∷ 2 ∷ 2 ∷ 2 ∷ 2 ∷ 2 ∷ 3 ∷ 2 ∷ 2 ∷ 2 ∷ 2 ∷ 1 ∷ 1 ∷ []
    else if n == 1
    then 2 ∷ 2 ∷ 2 ∷ 2 ∷ 2 ∷ 2 ∷ 2 ∷ 2 ∷ 2 ∷ 2 ∷ 2 ∷ 2 ∷ 2 ∷ 2 ∷ 2 ∷ 2 ∷ []
    else if n == 2
    then 3 ∷ 3 ∷ 1 ∷ 1 ∷ 2 ∷ 2 ∷ 2 ∷ 2 ∷ 2 ∷ 2 ∷ 2 ∷ 2 ∷ 2 ∷ 2 ∷ 1 ∷ 1 ∷ []
    else if n == 3
    then 1 ∷ 1 ∷ 1 ∷ 1 ∷ 3 ∷ 3 ∷ 3 ∷ 1 ∷ 1 ∷ 1 ∷ 1 ∷ 1 ∷ 1 ∷ 1 ∷ 1 ∷ 1 ∷ []
    else if n == 4
    then 1 ∷ 1 ∷ 2 ∷ 2 ∷ 2 ∷ 2 ∷ 2 ∷ 2 ∷ 1 ∷ 2 ∷ 1 ∷ 3 ∷ 1 ∷ 1 ∷ 1 ∷ 1 ∷ []
    else if n == 5
    then 2 ∷ 2 ∷ 2 ∷ 2 ∷ 2 ∷ 2 ∷ 2 ∷ 3 ∷ 3 ∷ 2 ∷ 1 ∷ 3 ∷ 2 ∷ 3 ∷ 2 ∷ 2 ∷ []
    else if n == 6
    then 1 ∷ 1 ∷ 1 ∷ 1 ∷ 1 ∷ 1 ∷ 1 ∷ 2 ∷ 2 ∷ 1 ∷ 2 ∷ 3 ∷ 1 ∷ 1 ∷ 1 ∷ 1 ∷ []
    else if n == 7
    then 1 ∷ 1 ∷ 1 ∷ 1 ∷ 1 ∷ 1 ∷ 1 ∷ 2 ∷ 2 ∷ 1 ∷ 2 ∷ 3 ∷ 1 ∷ 1 ∷ 1 ∷ 1 ∷ []
    else 1 ∷ 1 ∷ 1 ∷ 1 ∷ 1 ∷ 1 ∷ 1 ∷ 2 ∷ 2 ∷ 1 ∷ 2 ∷ 3 ∷ 1 ∷ 2 ∷ 1 ∷ 1 ∷ []

abbrev length_or : Option ℕ → ℕ
length_or none = 1
length_or (some n) = n

-- The length that the instruction set gives an opcode; 0xA5 is undefined.
unfoldable pub standard : ℕ → ℕ
unfolding get_elem?
standard op = length_or (get_elem? (column (op % 16)) (op / 16))

-- JC, JNC, JZ, JNZ and SJMP, the operations of A with an immediate byte, and DJNZ on a register.
abbrev pub missed : List ℕ
missed =
    0x40 ∷ 0x50 ∷ 0x60 ∷ 0x70 ∷ 0x80 ∷ 0x24 ∷ 0x34 ∷ 0x44 ∷ 0x54 ∷ 0x64 ∷ 0xD8 ∷ 0xD9 ∷ 0xDA ∷ 0xDB
    ∷ 0xDC ∷ 0xDD ∷ 0xDE ∷ 0xDF ∷ []

abbrev checked : Bool → ℕ → Bool
checked true op = oplen op == 1 && standard op == 2
checked false op = oplen op == standard op

-- The opcode is of the standard length, or among those that are missed, one byte instead of two.
fits : ℕ → Bool
fits op = checked (is_in op missed) op

all_below : ℕ → (ℕ → Bool) → Bool
all_below zero test = true
all_below (suc n) test = test n && all_below n test

all_below-at : (n : ℕ) (test : ℕ → Bool) (x : ℕ) → all_below n test ≡ true → x < n → test x ≡ true
unfolding all_below
all_below-at zero test x h lt = absurd (omega arith)
all_below-at (suc n) test x h lt = ground (arith, all_below-at n test x)

fits_table : all_below 256 fits ≡ true
unfolding all_below fits oplen standard is_in
fits_table = refl

-- OPLEN has the standard length of an opcode exactly if the opcode is not one of the eighteen that
-- it misses.
pub oplen-standard : (op : ℕ) → op < 256 → (oplen op ≡ standard op) ↔ (is_in op missed ≡ false)
unfolding fits
oplen-standard op lt = go (is_in op missed) (all_below-at 256 fits op fits_table lt)
  where
    go : (b : Bool) → checked b op ≡ true → (oplen op ≡ standard op) ↔ (b ≡ false)
    go true f = (λ same. absurd (ground arith), λ h. cc)
    go false f = (λ same. refl, λ h. ground arith)
