-- ===== src/U17/Image/Build.antt =====
-- The builder against the validator: a built image is valid and holds both of its parts.
use sc_adat_appliance.Base.{
  ℕ, ◌≡◌, ◌≤◌, ◌<◌, sym, ap, ◌∙◌, List, [], ◌++◌, arith, length, take, drop, replicate, slice,
  splice, length-replicate, length-splice, length-append, length-take, length-drop,
  slice-splice_self, slice-splice_before, slice-take-append, take-splice, take-append_le, take-take,
  drop-take-append,
}
use sc_adat_appliance.Base.Bytes.{
  from_big-to_big, length-to_big, sum, same_refl, complement16, from_big, to_big,
}
use sc_adat_appliance.Base.Result.{ok}
use sc_adat_appliance.U17.Image.{signature, checksum, stored, validate, filled, build}

pub checksum-lt : (image : List ℕ) → checksum image < 0x10000
unfolding checksum complement16
checksum-lt image = omega arith

module _ (payload template : List ℕ) (short : length payload ≤ 0x7DFC)
    (whole : length template ≡ 0x8000) where
  abbrev field : List ℕ
  field = to_big 2 (checksum (filled payload))

  -- The image before the template's tail replaces its own.
  abbrev summed : List ℕ
  summed = splice 0x7DFE field (filled payload)

  abbrev pub built : List ℕ
  built = take 0x7E00 summed ++ drop 0x7E00 template

  length-blank : length (splice 0 payload (replicate 0x8000 0)) ≡ 0x8000
  length-blank =
      length-splice 0 payload (replicate 0x8000 0)
        (omega (arith, length-replicate {A = ℕ} 0x8000 0))
      ∙ length-replicate 0x8000 0

  length-filled : length (filled payload) ≡ 0x8000
  unfolding filled
  length-filled =
      length-splice 0x7DFC signature (splice 0 payload (replicate 0x8000 0))
        (omega (arith, length-blank))
      ∙ length-blank

  length-summed : length summed ≡ 0x8000
  length-summed =
      length-splice 0x7DFE field (filled payload)
        (omega (arith, length-filled, length-to_big 2 (checksum (filled payload))))
      ∙ length-filled

  pub length-built : length built ≡ 0x8000
  length-built = omega (
    arith,
    length-append {0} (take 0x7E00 summed) (drop 0x7E00 template),
    length-take {0} 0x7E00 summed,
    length-drop {0} 0x7E00 template,
    length-summed,
  )

  pub slice-built : (i j : ℕ) → j ≤ 0x7DFE → slice i j built ≡ slice i j (filled payload)
  slice-built i j h =
      slice-take-append i j 0x7E00 summed (drop 0x7E00 template) (omega arith)
        (omega (arith, length-summed))
      ∙ slice-splice_before i j 0x7DFE field (filled payload) h (omega (arith, length-filled))

  pub checksum-built : checksum built ≡ checksum (filled payload)
  unfolding checksum
  checksum-built =
      ap (λ (xs : List ℕ). complement16 (sum xs))
        (take-append_le 0x7DFD (take 0x7E00 summed) (drop 0x7E00 template)
            (omega (arith, length-take {0} 0x7E00 summed, length-summed))
          ∙ take-take 0x7DFD 0x7E00 summed (omega arith)
          ∙ take-splice 0x7DFD 0x7DFE field (filled payload) (omega arith)
              (omega (arith, length-filled)))

  pub field-built : slice 0x7DFE 0x7E00 built ≡ field
  field-built =
      slice-take-append 0x7DFE 0x7E00 0x7E00 summed (drop 0x7E00 template) (omega arith)
        (omega (arith, length-summed))
      ∙ slice-splice_self 0x7DFE 0x7E00 field (filled payload)
          (omega (arith, length-to_big 2 (checksum (filled payload))))
          (omega (arith, length-filled))

  pub stored-built : stored built ≡ checksum built
  unfolding stored
  stored-built =
      ap (from_big 0) field-built
      ∙ from_big-to_big 2 (checksum (filled payload)) (checksum-lt (filled payload))
      ∙ sym checksum-built

  pub signature-built : slice 0x7DFC 0x7DFE built ≡ signature
  unfolding filled
  signature-built =
      slice-built 0x7DFC 0x7DFE (omega arith)
      ∙ slice-splice_self 0x7DFC 0x7DFE signature (splice 0 payload (replicate 0x8000 0))
          (omega arith) (omega (arith, length-blank))

  payload-built : slice 0 (length payload) built ≡ payload
  unfolding filled
  payload-built =
      slice-built 0 (length payload) (omega arith)
      ∙ slice-splice_before 0 (length payload) 0x7DFC signature
          (splice 0 payload (replicate 0x8000 0)) short (omega (arith, length-blank))
      ∙ slice-splice_self 0 (length payload) payload (replicate 0x8000 0) (omega arith)
          (omega (arith, length-replicate {A = ℕ} 0x8000 0))

  tail-built : drop 0x7E00 built ≡ drop 0x7E00 template
  tail-built = drop-take-append 0x7E00 summed (drop 0x7E00 template) (omega (arith, length-summed))

  validate-built : validate built ≡ []
  unfolding validate
  validate-built =
      rw (signature-built, stored-built) (ground (arith, length-built, same_refl signature))

  pub build-eq-ok : build payload template ≡ ok built
  unfolding build
  build-eq-ok = ground arith

-- A payload of at most 0x7DFC bytes and a template of 0x8000 bytes build an image that passes
-- `validate`, begins with the payload, and ends from 0x7E00 on as the template does.
pub validate-build :
    (payload template : List ℕ)
    → length payload ≤ 0x7DFC
    → length template ≡ 0x8000
    → (image : List ℕ) × (build payload template ≡ ok image)
      × (validate image ≡ [])
      × (slice 0 (length payload) image ≡ payload)
      × (drop 0x7E00 image ≡ drop 0x7E00 template)
validate-build payload template short whole = (
  built payload template short whole,
  build-eq-ok payload template short whole,
  validate-built payload template short whole,
  payload-built payload template short whole,
  tail-built payload template short whole,
)
