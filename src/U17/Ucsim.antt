-- ===== src/U17/Ucsim.antt =====
-- dyaxis/analysis/u17_ucsim_runner.py: the images, the Intel HEX file and the commands that it gives
-- to uCsim, and the path that it projects for an image.
pub mod Loads
pub mod Projection
use sc_adat_appliance.Base.{
  ℕ, zero, suc, ◌+◌, ◌-◌, ◌*◌, ◌/◌, ◌%◌, Bool, true, false, not, ◌&&◌, Option, none, some, List, [],
  ◌∷◌, ◌++◌, ◌==◌, if◌then◌else◌, length, take, drop, replicate, slice,
}
use sc_adat_appliance.Base.Bytes.{sum, same, complement16, to_big}
use sc_adat_appliance.Base.Hex.{hex2, hex_upper}
use sc_adat_appliance.Base.Result.{Result, ok, err}
use sc_adat_appliance.Base.Text.{Text, codes}
use sc_adat_appliance.U17.Emulator.{FinalPath, marker_wait, checksum_failed, checksum_good}

-- `read_image`, of the bytes of the file.
pub data ImageError : Type 0 where
  wrong_size : ℕ → ImageError
  unknown_mapping : Text → ImageError

unfoldable pub read_image : List ℕ → Result ImageError (List ℕ)
read_image bytes =
    if not (length bytes == 0x8000) then err (wrong_size (length bytes)) else ok bytes

-- The bytes of one record in front of its checksum.
unfoldable pub record_of : ℕ → List ℕ → List ℕ
record_of address chunk = length chunk ∷ address / 256 % 256 ∷ address % 256 ∷ 0 ∷ chunk

-- `(-sum(record)) & 0xFF`
unfoldable pub check_byte : List ℕ → ℕ
check_byte bytes = (256 - sum bytes % 256) % 256

unfoldable pub record_line : List ℕ → Text
unfolding check_byte hex2
record_line bytes = 58 ∷ (hex_upper bytes ++ hex2 (check_byte bytes))

-- One record for each `range(0, len(data), 16)`, on fuel: a record takes a byte at least.
unfoldable pub record_lines : ℕ → ℕ → List ℕ → List Text
unfolding record_of record_line
record_lines fuel address [] = []
record_lines zero address (b ∷ bs) = []
record_lines (suc fuel) address (b ∷ bs) =
    record_line (record_of address (take 16 (b ∷ bs)))
    ∷ record_lines fuel (address + 16) (drop 16 (b ∷ bs))

-- `"\n".join(lines) + "\n"`
unfoldable pub with_breaks : List Text → Text
with_breaks [] = 10 ∷ []
with_breaks (t ∷ []) = t ++ 10 ∷ []
with_breaks (t ∷ s ∷ rest) = t ++ (10 ∷ with_breaks (s ∷ rest))

abbrev pub end_line : Text
end_line = codes ":00000001FF"

unfoldable pub ihex : List ℕ → Text
unfolding record_lines with_breaks
ihex bytes = with_breaks (record_lines (length bytes) 0 bytes ++ end_line ∷ [])

-- `" ".join(f"{value:02X}" ...)`
unfoldable pub spaced : List ℕ → Text
unfolding hex2
spaced [] = []
spaced (b ∷ []) = hex2 b
spaced (b ∷ c ∷ rest) = hex2 b ++ (32 ∷ spaced (c ∷ rest))

-- `range(0, SIZE, 16)` from an offset on.
unfoldable pub xram_from : ℕ → ℕ → List ℕ → List Text
unfolding spaced hex_upper to_big
xram_from zero offset image = []
xram_from (suc rounds) offset image =
    (codes "set memory XRAM 0x"
      ++ (hex_upper (to_big 2 (0x8000 + offset))
          ++ (32 ∷ spaced (slice offset (offset + 16) image))))
    ∷ xram_from rounds (offset + 16) image

unfoldable pub xram_commands : List ℕ → List Text
unfolding xram_from
xram_commands image = xram_from 0x800 0 image

pub record Summary : Type 0 where
  pub read_count : ℕ
  pub sum_r4_r5 : ℕ
  pub complement_r6_r7 : ℕ
  pub supplied_fdfc_fdff : List ℕ

unfoldable pub checksum_summary : List ℕ → Summary
checksum_summary image =
    let values = take 0x7DFD image in
    let total = sum values % 0x10000 in
    record {
      read_count = length values;
      sum_r4_r5 = total;
      complement_r6_r7 = complement16 total;
      supplied_fdfc_fdff = slice 0x7DFC 0x7E00 image;
    }

abbrev marker : List ℕ
marker = 0xAA ∷ 0x55 ∷ []

unfoldable pub projected_path : List ℕ → FinalPath
projected_path image =
    let total = sum (take 0x7DFD image) % 0x10000 in
    if same (slice 0x7DFE 0x7E00 image) marker && same (slice 0x7DFC 0x7DFE image) marker
    then marker_wait
    else if same (slice 0x7DFE 0x7E00 image) (to_big 2 (complement16 total))
    then checksum_good
    else checksum_failed

-- The image of a mapping's name; the descriptions are left out.
unfoldable pub mapping_image : Text → List ℕ → List ℕ → Result ImageError (List ℕ)
mapping_image name original candidate =
    if same name (codes "original")
    then ok original
    else if same name (codes "candidate")
    then ok candidate
    else if same name (codes "zero")
    then ok (replicate 0x8000 0)
    else if same name (codes "ff")
    then ok (replicate 0x8000 0xFF)
    else if same name (codes "mutable-original")
    then ok original
    else err (unknown_mapping name)
