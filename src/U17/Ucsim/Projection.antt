-- ===== src/U17/Ucsim/Projection.antt =====
-- The projected path is the one that the emulated startup check ends in.
use sc_adat_appliance.Base.{ℕ, ◌%◌, ◌<◌, ◌≡◌, refl, sym, ◌∙◌, List, length, take, arith}
use sc_adat_appliance.Base.Bytes.{sum, same, complement16, from_big, to_big, AllBytes}
use sc_adat_appliance.Base.Result.{ok}
use sc_adat_appliance.U17.Image.{checksum, stored}
use sc_adat_appliance.U17.Emulator.{Report, startup_validation}
use sc_adat_appliance.U17.Emulator.Startup.{expected_path, startup-final_path, Pair-at}
use sc_adat_appliance.U17.Ucsim.{projected_path}

-- The complement of a sum is that of its low sixteen bits.
complement16-mod : (n : ℕ) → complement16 (n % 0x10000) ≡ complement16 n
unfolding complement16
complement16-mod n = omega arith

complement16-lt : (n : ℕ) → complement16 n < 0x10000
unfolding complement16
complement16-lt n = omega arith

projected-expected :
    (image : List ℕ)
    → length image ≡ 0x8000
    → AllBytes image
    → projected_path image ≡ expected_path image
unfolding projected_path stored checksum from_big same to_big
projected-expected image len bytes =
    let p = Pair-at image len bytes 0x7DFE 0x7E00 (omega arith) refl in
    let q = Pair-at image len bytes 0x7DFC 0x7DFE (omega arith) refl in
    rw (p.both, q.both, complement16-mod (sum (take 0x7DFD image)))
      (ground (arith, p.hi_byte, p.lo_byte, complement16-lt (sum (take 0x7DFD image))))

-- On an image of 0x8000 bytes the emulated startup check returns, and ends in the projected path.
pub projected_path-startup :
    (image : List ℕ)
    → length image ≡ 0x8000
    → AllBytes image
    → (r : Report) × (startup_validation image ≡ ok r) × (projected_path image ≡ r.final_path)
projected_path-startup image len bytes =
    let (r, runs, path) = startup-final_path image len bytes in
    (r, runs, projected-expected image len bytes ∙ sym path)
