-- ===== src/U17/Loader/Cover.antt =====
-- The planned blocks are the image, in order and without gaps, inside the load window.
use sc_adat_appliance.Base.{
  ℕ, ◌+◌, ◌-◌, ◌*◌, ◌/◌, ◌≤◌, ◌<◌, zero, suc, ◌≡◌, refl, ap, sym, ◌∙◌, List, [], ◌∷◌, ◌++◌, arith,
  length, drop, slice, length-take, length-drop, take-append-drop, drop-drop, drop_all,
}
use sc_adat_appliance.Base.Result.{ok}
use sc_adat_appliance.U17.Loader.{BlockPlan, LoadPlan, complemented_sum16, blocks_from, make_plan}

-- The blocks' bytes, joined.
abbrev pub joined : List BlockPlan → List ℕ
joined [] = []
joined (b ∷ bs) = b.payload ++ joined bs

-- Numbered from `i`, and the first at the given address, each at the address where the one before
-- ends, none empty or above 0x80 bytes, and none past CPU address 0xFDFD.
abbrev pub Laid : ℕ → ℕ → List BlockPlan → Type 0
Laid i address [] = Unit
Laid i address (b ∷ bs) =
    (b.block ≡ i)
    × (b.address ≡ address)
    × (0 < length b.payload)
    × (length b.payload ≤ 0x80)
    × (address + length b.payload ≤ 0xFDFE)
    × Laid (suc i) (address + length b.payload) bs

module _ (image : List ℕ) where
  joined-blocks_from :
      (rounds i : ℕ)
      → length image ≤ (i + rounds) * 0x80
      → joined (blocks_from rounds i image) ≡ drop (i * 0x80) image
  unfolding blocks_from slice
  joined-blocks_from zero i h = sym (drop_all (i * 0x80) image (omega arith))
  joined-blocks_from (suc rounds) i h =
      let next : i * 0x80 + 0x80 ≡ suc i * 0x80 = omega arith in
      let size : i * 0x80 + 0x80 - i * 0x80 ≡ 0x80 = omega arith in
      let ih : joined (blocks_from rounds (suc i) image) ≡ drop 0x80 (drop (i * 0x80) image) =
        joined-blocks_from rounds (suc i) (omega arith)
        ∙ sym (drop-drop 0x80 (i * 0x80) image ∙ ap (λ (n : ℕ). drop n image) next) in
      rw (ih, size) (take-append-drop 0x80 (drop (i * 0x80) image))

  length-block :
      (i : ℕ)
      → i * 0x80 < length image
      → length image ≤ 0x7DFE
      → (0 < length (slice (i * 0x80) (i * 0x80 + 0x80) image))
        × (length (slice (i * 0x80) (i * 0x80 + 0x80) image) ≤ 0x80)
        × (0x8000 + i * 0x80 + length (slice (i * 0x80) (i * 0x80 + 0x80) image) ≤ 0xFDFE)
  unfolding slice
  length-block i h b =
      let e = length-take (i * 0x80 + 0x80 - i * 0x80) (drop (i * 0x80) image) in
      let d = length-drop (i * 0x80) image in
      (omega (arith, e, d), omega (arith, e, d), omega (arith, e, d))

  -- A block that is not the last one is full.
  length-full :
      (i : ℕ)
      → suc i * 0x80 < length image
      → length (slice (i * 0x80) (i * 0x80 + 0x80) image) ≡ 0x80
  unfolding slice
  length-full i h =
      let e = length-take (i * 0x80 + 0x80 - i * 0x80) (drop (i * 0x80) image) in
      let d = length-drop (i * 0x80) image in omega (arith, e, d)

  blocks_from-Laid :
      (rounds i address : ℕ)
      → (0 < rounds → address ≡ 0x8000 + i * 0x80)
      → (i + rounds) * 0x80 < length image + 0x80
      → length image ≤ 0x7DFE
      → Laid i address (blocks_from rounds i image)
  unfolding blocks_from
  blocks_from-Laid zero i address here h b = tt
  blocks_from-Laid (suc rounds) i address here h b =
      let size = length-block i (omega arith) b in
      let at : address ≡ 0x8000 + i * 0x80 = here (omega arith) in
      (
        refl,
        sym at,
        size.0,
        size.1,
        omega (arith, at, size.2),
        blocks_from-Laid rounds (suc i) _
            (λ more. let full = length-full i (omega (arith, more, h)) in omega (arith, at, full))
            (omega arith) b,
      )

-- A nonempty image of at most 0x7DFE bytes has a plan whose blocks, in order, hold exactly the
-- image: the first stands at 0x8000, each other at the address where the one before ends, and none
-- goes past 0xFDFD.
pub make_plan-Laid :
    (image : List ℕ)
    → 0 < length image
    → length image ≤ 0x7DFE
    → (plan : LoadPlan) × (make_plan image 0x80 ≡ ok plan)
      × (joined plan.blocks ≡ image)
      × Laid 0 0x8000 plan.blocks
unfolding make_plan drop
make_plan-Laid image some_bytes fits = (
  record {
    image_size = length image;
    checksum16_complement = complemented_sum16 image;
    blocks = blocks_from ((length image + 0x7F) / 0x80) 0 image;
    entry_point = 0x8000;
  },
  ground arith,
  joined-blocks_from image ((length image + 0x7F) / 0x80) 0 (omega arith),
  blocks_from-Laid image ((length image + 0x7F) / 0x80) 0 0x8000 (λ more. refl) (omega arith) fits,
)
