-- ===== src/U17/Emulator/Startup.antt =====
-- The startup check against the image format: which path it takes, and that a built image never
-- reaches "Checksum Failed".
use sc_adat_appliance.Base.{
  ℕ, suc, ◌-◌, ◌+◌, ◌≤◌, ◌<◌, ◌≡◌, ◌∙◌, refl, ◌&&◌, List, [], ◌∷◌, some, arith, length, get_elem?,
  take, drop, replicate, slice, get_elem?-drop, All-get_elem?, All-append, All-take, All-drop,
  All-replicate, All-splice, splice, ◌==◌, if◌then◌else◌,
}
use sc_adat_appliance.Base.Bytes.{same, same_refl, AllBytes, IsByte, from_big, to_big}
use sc_adat_appliance.Base.Result.{ok}
use sc_adat_appliance.U17.Image.{signature, checksum, stored, build, filled}
use sc_adat_appliance.U17.Image.Build.{
  built, length-built, stored-built, signature-built, build-eq-ok, checksum-lt,
}
use sc_adat_appliance.U17.Emulator.{
  Checksum, Report, FinalPath, marker_wait, checksum_failed, checksum_good, checksum_037c, report,
  startup_validation,
}
use sc_adat_appliance.U17.Emulator.Loop.{xdata_read_lem, checksum_037c-eq-checksum}

-- The path by the image format: markers first, then the stored against the computed checksum.
abbrev pub expected_path : List ℕ → FinalPath
expected_path image =
    if stored image == 0xAA55 && same (slice 0x7DFC 0x7DFE image) signature
    then marker_wait
    else if stored image == checksum image
    then checksum_good
    else checksum_failed

-- Two neighbouring bytes as elements and as a slice.
pub record Pair (image : List ℕ) (i j : ℕ) : Type 0 where
  pub hi : ℕ
  pub lo : ℕ
  pub hi_byte : hi < 256
  pub lo_byte : lo < 256
  pub hi_at : get_elem? image i ≡ some hi
  pub lo_at : get_elem? image (suc i) ≡ some lo
  pub both : slice i j image ≡ hi ∷ lo ∷ []

module _ (image : List ℕ) (len : length image ≡ 0x8000) (bytes : AllBytes image) where
  pub Pair-at : (i j : ℕ) → suc i < 0x8000 → i + 2 ≡ j → Pair image i j
  unfolding slice take
  Pair-at i j h e =
      let (a, at, rest) = get_elem?-drop i image (omega arith) in
      let (b, bt, more) = get_elem?-drop (suc i) image (omega arith) in
      let two : j - i ≡ 2 = omega arith in
      record {
        hi = a;
        lo = b;
        hi_byte = All-get_elem? IsByte i image a bytes at;
        lo_byte = All-get_elem? IsByte (suc i) image b bytes bt;
        hi_at = at;
        lo_at = bt;
        both = rw (two, rest, more) refl;
      }

  -- The report in terms of the pairs that it reads.
  startup-eq-report :
      (p : Pair image 0x7DFE 0x7E00) (q : Pair image 0x7DFC 0x7DFE) (c : Checksum)
      → checksum_037c image ≡ ok c
      → startup_validation image ≡ ok (report p.hi p.lo q.hi q.lo c)
  unfolding startup_validation
  startup-eq-report p q c e =
      rw
        (
          len,
          xdata_read_lem image 0xFDFE 0x7DFE p.hi (omega arith) (omega arith) p.hi_at,
          xdata_read_lem image 0xFDFF 0x7DFF p.lo (omega arith) (omega arith) p.lo_at,
          xdata_read_lem image 0xFDFC 0x7DFC q.hi (omega arith) (omega arith) q.hi_at,
          xdata_read_lem image 0xFDFD 0x7DFD q.lo (omega arith) (omega arith) q.lo_at,
          e,
        )
        refl

  report-path :
      (p : Pair image 0x7DFE 0x7E00) (q : Pair image 0x7DFC 0x7DFE) (c : Checksum)
      → c.complement ≡ checksum image
      → (report p.hi p.lo q.hi q.lo c).final_path ≡ expected_path image
  unfolding report stored from_big same
  report-path p q c e =
      rw (p.both, q.both, ← e) (ground (arith, p.hi_byte, p.lo_byte, e, checksum-lt image))

-- On an image of 0x8000 bytes the startup check returns a report. It waits on both markers, is
-- good on a matching stored checksum otherwise, and fails in the remaining case only.
pub startup-final_path :
    (image : List ℕ)
    → length image ≡ 0x8000
    → AllBytes image
    → (r : Report) × (startup_validation image ≡ ok r) × (r.final_path ≡ expected_path image)
startup-final_path image len bytes =
    let (c, runs, eq, _) = checksum_037c-eq-checksum image len bytes in
    let p = Pair-at image len bytes 0x7DFE 0x7E00 (omega arith) refl in
    let q = Pair-at image len bytes 0x7DFC 0x7DFE (omega arith) refl in
    (
      report p.hi p.lo q.hi q.lo c,
      startup-eq-report image len bytes p q c runs,
      report-path image len bytes p q c eq,
    )

module _ (payload template : List ℕ) (short : length payload ≤ 0x7DFC)
    (whole : length template ≡ 0x8000) (data_bytes : AllBytes payload)
    (tail_bytes : AllBytes template) where
  AllBytes-filled : AllBytes (filled payload)
  unfolding filled
  AllBytes-filled =
      All-splice IsByte 0x7DFC signature (splice 0 payload (replicate 0x8000 0)) (omega arith) (
        All-splice IsByte 0 payload (replicate 0x8000 0) data_bytes
          (All-replicate IsByte 0x8000 0 (omega arith)))

  AllBytes-to_big : (n : ℕ) → AllBytes (to_big 2 n)
  unfolding to_big
  AllBytes-to_big n = omega arith

  AllBytes-built : AllBytes (built payload template short whole)
  AllBytes-built =
      let field = to_big 2 (checksum (filled payload)) in
      let summed = splice 0x7DFE field (filled payload) in
      All-append IsByte (take 0x7E00 summed) (drop 0x7E00 template)
        (All-take IsByte 0x7E00 summed (
          All-splice IsByte 0x7DFE field (filled payload)
            (AllBytes-to_big (checksum (filled payload))) AllBytes-filled))
        (All-drop IsByte 0x7E00 template tail_bytes)

  path-built :
      let image = built payload template short whole in
      expected_path image ≡ (if checksum image == 0xAA55 then marker_wait else checksum_good)
  path-built =
      rw (signature-built payload template short whole, stored-built payload template short whole)
        (ground (arith, same_refl signature))

-- The startup check on an image that `build` made of bytes: it waits on the markers if the
-- checksum happens to be 0xAA55, and is good otherwise. It never fails.
pub startup-build :
    (payload template : List ℕ)
    → length payload ≤ 0x7DFC
    → length template ≡ 0x8000
    → AllBytes payload
    → AllBytes template
    → (image : List ℕ) × (r : Report) × (build payload template ≡ ok image)
      × (startup_validation image ≡ ok r)
      × (r.final_path ≡ (if checksum image == 0xAA55 then marker_wait else checksum_good))
startup-build payload template short whole pb tb =
    let image = built payload template short whole in
    let (r, runs, path) =
      startup-final_path image (length-built payload template short whole)
        (AllBytes-built payload template short whole pb tb) in
    (
      image,
      r,
      build-eq-ok payload template short whole,
      runs,
      path ∙ path-built payload template short whole pb tb,
    )
