-- ===== src/U17/Emulator/Loop.antt =====
-- The register loop at 037C computes the checksum of the image format, with 0x7DFD reads.
use sc_adat_appliance.Base.{
  ℕ, ◌+◌, ◌-◌, ◌*◌, ◌%◌, ◌≤◌, ◌<◌, zero, suc, ◌≡◌, ◌↔◌, refl, true, false, List, [], ◌∷◌, ◌++◌,
  some, arith, length, get_elem?, take, drop, get_elem?-drop, All-get_elem?, length-append,
}
use sc_adat_appliance.Base.Bytes.{complement16, sum, AllBytes, IsByte}
use sc_adat_appliance.Base.Result.{Result, ok}
use sc_adat_appliance.U17.Image.{checksum}
use sc_adat_appliance.U17.Emulator.{
  checksum_037c, Fault, Regs, Read, Checksum, xdata_read, address, done, advance, loop, start,
  summary,
}

record InRange (r : Regs) : Type 0 where
  r4_byte : r.r4 < 256
  r5_byte : r.r5 < 256
  r7_byte : r.r7 < 256

-- R4:R5 as one number.
abbrev total : Regs → ℕ
total r = r.r4 * 256 + r.r5

advance-InRange : {r : Regs} (v : ℕ) → InRange r → InRange (advance v r)
unfolding advance
advance-InRange v h = ground arith

total-advance :
    {r : Regs} (v : ℕ) → v < 256 → InRange r → total (advance v r) ≡ (total r + v) % 0x10000
unfolding advance
total-advance v b h = ground arith

address-advance :
    {r : Regs} (v : ℕ) → address r < 0xFFFF → InRange r → address (advance v r) ≡ address r + 1
unfolding advance address
address-advance v b h = ground arith

done_iff : (r : Regs) → InRange r → (done r ≡ true) ↔ (0xFDFD ≤ address r)
unfolding done address
done_iff r h = ground arith

-- A read of the image through its CPU address.
pub xdata_read_lem :
    (image : List ℕ) (cpu k v : ℕ)
    → cpu ≡ 0x8000 + k
    → k < 0x8000
    → get_elem? image k ≡ some v
    → xdata_read image cpu ≡ ok v
unfolding xdata_read
xdata_read_lem image cpu k v a h e =
    let z : cpu - 0x8000 ≡ k = omega arith in rw (z, e) (ground arith)

abbrev note : Regs → ℕ → Read
note r v = record { cpu_address = address r; file_offset = address r - 0x8000; value = v }

loop_stop :
    (fuel : ℕ) (image : List ℕ) (r : Regs) (reads : List Read)
    → done r ≡ true
    → loop (suc fuel) image r reads ≡ ok (r, reads)
unfolding loop
loop_stop fuel image r reads e = rw (e, loop)

loop_step :
    (fuel : ℕ) (image : List ℕ) (r : Regs) (reads : List Read) (v : ℕ)
    → done r ≡ false
    → xdata_read image (address r) ≡ ok v
    → loop (suc fuel) image r reads ≡ loop fuel image (advance v r) (reads ++ note r v ∷ [])
unfolding loop
loop_step fuel image r reads v e x = rw (e, x, loop)

-- What the loop returns from the byte `k` on, with `n` bytes to go.
record Ends (image : List ℕ) (n k count acc : ℕ) (out : Result Fault (Regs × List Read))
    : Type 0 where
  last : Regs
  reads : List Read
  returns : out ≡ ok (last, reads)
  counted : length reads ≡ count + n
  summed : total last ≡ (acc + sum (take n (drop k image))) % 0x10000
  ranged : InRange last

module _ (image : List ℕ) (len : length image ≡ 0x8000) (bytes : AllBytes image) where
  sum-take-drop :
      (n k v : ℕ)
      → drop k image ≡ v ∷ drop (suc k) image
      → sum (take (suc n) (drop k image)) ≡ v + sum (take n (drop (suc k) image))
  unfolding sum take
  sum-take-drop n k v e = rw e refl

  -- One more round in front.
  Ends-step :
      (n k count acc v : ℕ) (out : Result Fault (Regs × List Read))
      → drop k image ≡ v ∷ drop (suc k) image
      → Ends image n (suc k) (count + 1) ((acc + v) % 0x10000) out
      → Ends image (suc n) k count acc out
  Ends-step n k count acc v out e h = record {
    last = h.last;
    reads = h.reads;
    returns = h.returns;
    counted = omega (arith, h.counted);
    summed = omega (arith, h.summed, sum-take-drop n k v e);
    ranged = h.ranged;
  }

  loop-Ends :
      (n fuel k : ℕ) (r : Regs) (reads : List Read)
      → n + k ≡ 0x7DFD
      → n < fuel
      → address r ≡ 0x8000 + k
      → InRange r
      → Ends image n k (length reads) (total r) (loop fuel image r reads)
  loop-Ends n zero k r reads e f a h = absurd (omega arith)
  loop-Ends zero (suc fuel) k r reads e f a h =
      rw (loop_stop fuel image r reads ((done_iff r h).1 (omega arith))) (record {
        last = r;
        reads = reads;
        returns = refl;
        counted = omega arith;
        summed = unfold sum take in (omega (arith, h.r4_byte, h.r5_byte));
        ranged = h;
      })
  loop-Ends (suc n) (suc fuel) k r reads e f a h =
      let (v, at, rest) = get_elem?-drop k image (omega arith) in
      let byte : v < 256 = All-get_elem? IsByte k image v bytes at in
      let reads' : List Read = reads ++ note r v ∷ [] in
      let go : done r ≡ false = ground (arith, done_iff r h) in
      let read : xdata_read image (address r) ≡ ok v =
        xdata_read_lem image (address r) k v a (omega arith) at in
      let ih =
        loop-Ends n fuel (suc k) (advance v r) reads' (omega arith) (omega arith)
          (omega (arith, address-advance v (omega arith) h)) (advance-InRange v h) in
      let count : length reads' ≡ length reads + 1 =
        omega (arith, length-append reads (note r v ∷ [])) in
      rw (loop_step fuel image r reads v go read) (
        Ends-step n k (length reads) (total r) v (loop fuel image (advance v r) reads') rest
          (rw (← count, ← total-advance v byte h) ih))

  start-InRange : InRange start
  start-InRange = ground arith

  start-Ends : Ends image 0x7DFD 0 0 0 (loop 0x8000 image start [])
  start-Ends =
      loop-Ends 0x7DFD 0x8000 0 start [] refl (omega arith) (unfold address in refl) start-InRange

  unfolded : checksum_037c image ≡ ok (summary (start-Ends.last, start-Ends.reads))
  unfolding checksum_037c
  unfolded = rw (start-Ends.returns)

  complement-eq-checksum : (summary (start-Ends.last, start-Ends.reads)).complement ≡ checksum image
  unfolding checksum complement16 drop
  complement-eq-checksum =
      omega (arith, start-Ends.summed, start-Ends.ranged.r4_byte, start-Ends.ranged.r5_byte)

-- On an image of 0x8000 bytes the register loop ends, reads 0x7DFD bytes, and its R6:R7 is the
-- checksum that `u17_image.checksum` computes.
pub checksum_037c-eq-checksum :
    (image : List ℕ)
    → length image ≡ 0x8000
    → AllBytes image
    → (c : Checksum) × (checksum_037c image ≡ ok c)
      × (c.complement ≡ checksum image)
      × (c.read_count ≡ 0x7DFD)
checksum_037c-eq-checksum image len bytes = (
  summary ((start-Ends image len bytes).last, (start-Ends image len bytes).reads),
  unfolded image len bytes,
  complement-eq-checksum image len bytes,
  (start-Ends image len bytes).counted,
)
