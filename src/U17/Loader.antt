-- ===== src/U17/Loader.antt =====
-- dyaxis/host/u17_loader_skeleton.py: the plan of blocks for an application image.
pub mod Cover
use sc_adat_appliance.Base.{
  ℕ, ◌+◌, ◌*◌, ◌/◌, zero, suc, not, List, [], ◌∷◌, length, slice, ltb, ◌==◌, if◌then◌else◌,
}
use sc_adat_appliance.Base.Bytes.{sum, complement16}
use sc_adat_appliance.Base.Result.{Result, ok, err}

pub record BlockPlan : Type 0 where
  pub block : ℕ
  pub address : ℕ
  pub payload : List ℕ

pub record LoadPlan : Type 0 where
  pub image_size : ℕ
  pub checksum16_complement : ℕ
  pub blocks : List BlockPlan
  pub entry_point : ℕ

pub data PlanError : Type 0 where
  empty_image image_too_long bad_block_size : PlanError

unfoldable pub complemented_sum16 : List ℕ → ℕ
complemented_sum16 image = complement16 (sum image)

-- `enumerate(range(0, len(image), block_size))`, by the rounds that are left.
unfoldable pub blocks_from : ℕ → ℕ → List ℕ → List BlockPlan
blocks_from zero i image = []
blocks_from (suc rounds) i image =
    record {
      block = i;
      address = 0x8000 + i * 0x80;
      payload = slice (i * 0x80) (i * 0x80 + 0x80) image;
    }
    ∷ blocks_from rounds (suc i) image

-- The block size can only be 0x80 where the blocks are made, and `range` has then
-- ceil(len(image) / 0x80) members.
unfoldable pub make_plan : List ℕ → ℕ → Result PlanError LoadPlan
make_plan image block_size =
    if length image == 0
    then err empty_image
    else if ltb 0x7DFE (length image)
    then err image_too_long
    else if not (block_size == 0x80)
    then err bad_block_size
    else ok (record {
      image_size = length image;
      checksum16_complement = complemented_sum16 image;
      blocks = blocks_from ((length image + 0x7F) / 0x80) 0 image;
      entry_point = 0x8000;
    })
