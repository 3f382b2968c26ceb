-- ===== src/U17/Emulator.antt =====
-- dyaxis/analysis/u17_checksum_emulator.py: the checksum loop at U17 037C and the startup check,
-- instruction by instruction.
pub mod Loop
pub mod Startup
use sc_adat_appliance.Base.{
  ℕ, ◌+◌, ◌-◌, ◌*◌, ◌/◌, ◌%◌, zero, suc, ◌≡◌, Bool, true, false, not, ◌&&◌, Option, none, some,
  List, [], ◌∷◌, ◌++◌, length, get_elem?, ltb, leb, ◌==◌, if◌then◌else◌,
}
use sc_adat_appliance.Base.Result.{Result, ok, err, raise_if, ◌>>=◌, ◌>>◌}

-- `out_of_fuel` is the model's own.
pub data Fault : Type 0 where
  unsupported_address : ℕ → Fault
  index_error bad_size out_of_fuel : Fault

abbrev pub or_index_error : Option ℕ → Result Fault ℕ
or_index_error none = err index_error
or_index_error (some v) = ok v

unfoldable pub xdata_read : List ℕ → ℕ → Result Fault ℕ
xdata_read image address =
    if not (leb 0x8000 address && leb address 0xFFFF)
    then err (unsupported_address address)
    else or_index_error (get_elem? image (address - 0x8000))

-- The registers of `checksum_037c`.
pub record Regs : Type 0 where
  pub r4 : ℕ
  pub r5 : ℕ
  pub r6 : ℕ
  pub r7 : ℕ

-- One entry of `reads`.
pub record Read : Type 0 where
  pub cpu_address : ℕ
  pub file_offset : ℕ
  pub value : ℕ

-- `(r6 << 8) | r7`; r7 is masked to a byte.
unfoldable pub address : Regs → ℕ
address r = r.r6 * 256 + r.r7

-- `high_difference >= 0`, with the borrow of the low bytes: the loop's exit.
unfoldable pub done : Regs → Bool
done r = let borrow = (if ltb r.r7 0xFD then 1 else 0) in leb (0xFD + borrow) r.r6

-- The rest of the loop's body, after the byte is read.
unfoldable pub advance : ℕ → Regs → Regs
advance value r =
    let total = value + r.r5 in
    let carry = (if ltb 0xFF total then 1 else 0) in
    let low = (r.r7 + 1) % 256 in
    record {
      r4 = (r.r4 + carry) % 256;
      r5 = total % 256;
      r6 = if low == 0 then (r.r6 + 1) % 256 else r.r6;
      r7 = low;
    }

-- `while True`, on fuel.
unfoldable pub loop : ℕ → List ℕ → Regs → List Read → Result Fault (Regs × List Read)
loop zero image r reads = err out_of_fuel
loop (suc fuel) image r reads = elim (done r) [
  | true ↦ ok (r, reads)
  | false ↦ xdata_read image (address r) >>= λ value. loop fuel image (advance value r) (
      reads
      ++ record { cpu_address = address r; file_offset = address r - 0x8000; value = value } ∷ [])
]

pub record Checksum : Type 0 where
  pub reads : List Read
  pub read_count : ℕ
  pub r4 : ℕ
  pub r5 : ℕ
  pub complement : ℕ

-- `~r` of a byte register is 0xFF - r.
abbrev pub summary : Regs × List Read → Checksum
summary (r, reads) = record {
  reads = reads;
  read_count = length reads;
  r4 = r.r4;
  r5 = r.r5;
  complement = (0xFF - r.r4) * 256 + (0xFF - r.r5);
}

abbrev pub start : Regs
start = record { r4 = 0; r5 = 0; r6 = 0x80; r7 = 0 }

unfoldable pub checksum_037c : List ℕ → Result Fault Checksum
checksum_037c image = do end ← loop 0x8000 image start []; ok (summary end)

-- The texts of `marker_branch`, `branch` and `final_path`.
pub data MarkerBranch : Type 0 where
  via_02a1 via_02a9 via_30a7 : MarkerBranch

pub data Branch : Type 0 where
  waits : MarkerBranch → Branch
  to_02eb_0311 to_02f0_0311 to_02fd : MarkerBranch → Branch

pub data FinalPath : Type 0 where
  marker_wait checksum_failed checksum_good : FinalPath

pub record Report : Type 0 where
  pub marker1_ok : Bool
  pub marker2_ok : Bool
  pub marker_branch : MarkerBranch
  pub branch : Branch
  pub final_path : FinalPath
  pub checksum : Checksum
  pub stored : ℕ
  pub stored_checksum_matches : Bool
  pub low_byte_matches : Bool
  pub high_byte_matches : Bool

abbrev pub choose_branch : Bool → Bool → MarkerBranch
choose_branch m1 m2 = if not m1 then via_02a1 else if not m2 then via_02a9 else via_30a7

abbrev pub choose_path : Bool → Bool → Bool → Bool → FinalPath × Branch
choose_path m1 m2 low high =
    let via = choose_branch m1 m2 in
    if m1 && m2
    then (marker_wait, waits via)
    else if not low
    then (checksum_failed, to_02eb_0311 via)
    else if not high
    then (checksum_failed, to_02f0_0311 via)
    else (checksum_good, to_02fd via)

-- The report from the four bytes that are read and the computed checksum.
unfoldable pub report : ℕ → ℕ → ℕ → ℕ → Checksum → Report
report first_hi first_lo second_hi second_lo checksum =
    let m1 = first_hi == 0xAA && first_lo == 0x55 in
    let m2 = second_hi == 0xAA && second_lo == 0x55 in
    let low = first_lo == checksum.complement % 256 in
    let high = first_hi == checksum.complement / 256 % 256 in
    let path = choose_path m1 m2 low high in
    record {
      marker1_ok = m1;
      marker2_ok = m2;
      marker_branch = choose_branch m1 m2;
      branch = path.1;
      final_path = path.0;
      checksum = checksum;
      stored = first_hi * 256 + first_lo;
      stored_checksum_matches = first_hi * 256 + first_lo == checksum.complement;
      low_byte_matches = low;
      high_byte_matches = high;
    }

-- FDFE and FDFF are read once more for the stored checksum; nothing writes in between.
unfoldable pub startup_validation : List ℕ → Result Fault Report
startup_validation image = do
  raise_if (not (length image == 0x8000)) bad_size
  first_hi ← xdata_read image 0xFDFE
  first_lo ← xdata_read image 0xFDFF
  second_hi ← xdata_read image 0xFDFC
  second_lo ← xdata_read image 0xFDFD
  checksum ← checksum_037c image
  ok (report first_hi first_lo second_hi second_lo checksum)
