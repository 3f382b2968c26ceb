-- ===== src/U17/Image.antt =====
-- dyaxis/analysis/u17_image.py: the checksum, the validator and the builder of a U17 image.
pub mod Build
use sc_adat_appliance.Base.{
  ℕ, ◌≡◌, List, [], ◌∷◌, ◌++◌, not, length, take, drop, replicate, slice, splice, ltb, ◌==◌,
  if◌then◌else◌,
}
use sc_adat_appliance.Base.Bytes.{sum, same, complement16, from_big, to_big}
use sc_adat_appliance.Base.Result.{Result, ok, err}

abbrev pub signature : List ℕ
signature = 0xAA ∷ 0x55 ∷ []

-- `image[:CHECKSUM_END_EXCLUSIVE]` is summed.
unfoldable pub checksum : List ℕ → ℕ
checksum image = complement16 (sum (take 0x7DFD image))

-- The messages that `validate` returns.
pub data Problem : Type 0 where
  bad_size : ℕ → Problem
  bad_signature : Problem
  bad_checksum : ℕ → ℕ → Problem

-- `int.from_bytes(image[CHECKSUM_OFFSET:CHECKSUM_OFFSET + 2], "big")`
unfoldable pub stored : List ℕ → ℕ
stored image = from_big 0 (slice 0x7DFE 0x7E00 image)

unfoldable pub validate : List ℕ → List Problem
validate image =
    if not (length image == 0x8000)
    then bad_size (length image) ∷ []
    else (if not (same (slice 0x7DFC 0x7DFE image) signature) then bad_signature ∷ [] else [])
      ++ (if not (stored image == checksum image)
          then bad_checksum (stored image) (checksum image) ∷ []
          else [])

pub data BuildError : Type 0 where
  payload_too_long bad_template : BuildError

-- The image that `build` has filled when it computes the checksum.
unfoldable pub filled : List ℕ → List ℕ
filled payload = splice 0x7DFC signature (splice 0 payload (replicate 0x8000 0))

unfoldable pub build : List ℕ → List ℕ → Result BuildError (List ℕ)
build payload template =
    if ltb 0x7DFC (length payload)
    then err payload_too_long
    else if not (length template == 0x8000)
    then err bad_template
    else ok (
        take 0x7E00 (splice 0x7DFE (to_big 2 (checksum (filled payload))) (filled payload))
        ++ drop 0x7E00 template)
