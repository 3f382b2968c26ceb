-- ===== src/U17/Independent.antt =====
-- dyaxis/analysis/u17_checksum_independent.py: the second transcription of the checksum.
pub mod Agreement
use sc_adat_appliance.Base.{
  ℕ, ◌+◌, ◌-◌, ◌*◌, ◌%◌, zero, suc, true, false, not, Option, none, some, List, length, get_elem?,
  ltb, ◌==◌, if◌then◌else◌,
}
use sc_adat_appliance.Base.Result.{Result, ok, err, raise_if, ◌>>=◌, ◌>>◌}
use sc_adat_appliance.U17.Emulator.{Fault, bad_size, out_of_fuel, or_index_error}

-- The loop's variables `high` and `low`.
pub record Sum : Type 0 where
  pub high : ℕ
  pub low : ℕ

unfoldable pub add_byte : ℕ → Sum → Sum
add_byte byte s =
    let total = s.low + byte in
    let carry = (if ltb 0xFF total then 1 else 0) in
    record { high = (s.high + carry) % 256; low = total % 256 }

-- `while address < END_EXCLUSIVE`, on fuel.
unfoldable pub sum_from : ℕ → List ℕ → ℕ → Sum → Result Fault Sum
sum_from zero image address s = err out_of_fuel
sum_from (suc fuel) image address s = elim (ltb address 0xFDFD) [
  | false ↦ ok s
  | true ↦ or_index_error (get_elem? image (address - 0x8000)) >>= λ byte.
      sum_from fuel image (address + 1) (add_byte byte s)
]

unfoldable pub complemented_sum : List ℕ → Result Fault ℕ
complemented_sum image = do
  raise_if (not (length image == 0x8000)) bad_size
  s ← sum_from 0x8000 image 0x8000 (record { high = 0; low = 0 })
  ok ((0xFF - s.high) * 256 + (0xFF - s.low))
