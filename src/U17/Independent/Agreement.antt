-- ===== src/U17/Independent/Agreement.antt =====
-- The two transcriptions and the image format compute the same checksum.
use sc_adat_appliance.Base.{
  ℕ, ◌+◌, ◌-◌, ◌*◌, ◌%◌, ◌≤◌, ◌<◌, zero, suc, ◌≡◌, refl, ap, sym, ◌∙◌, List, ◌∷◌, some, true, false,
  arith, length, get_elem?, take, drop, get_elem?-drop, All-get_elem?, ltb,
}
use sc_adat_appliance.Base.Bytes.{sum, complement16, AllBytes, IsByte}
use sc_adat_appliance.Base.Result.{Result, ok}
use sc_adat_appliance.U17.Image.{checksum}
use sc_adat_appliance.U17.Emulator.{Fault, Checksum, checksum_037c}
use sc_adat_appliance.U17.Emulator.Loop.{checksum_037c-eq-checksum}
use sc_adat_appliance.U17.Independent.{Sum, add_byte, sum_from, complemented_sum}

abbrev value : Sum → ℕ
value s = s.high * 256 + s.low

record InRange (s : Sum) : Type 0 where
  high_byte : s.high < 256
  low_byte : s.low < 256

add_byte-InRange : {s : Sum} (b : ℕ) → InRange s → InRange (add_byte b s)
unfolding add_byte
add_byte-InRange b h = ground arith

value-add_byte :
    {s : Sum} (b : ℕ) → b < 256 → InRange s → value (add_byte b s) ≡ (value s + b) % 0x10000
unfolding add_byte
value-add_byte b lt h = ground arith

record Ends (image : List ℕ) (n k acc : ℕ) (out : Result Fault Sum) : Type 0 where
  last : Sum
  returns : out ≡ ok last
  summed : value last ≡ (acc + sum (take n (drop k image))) % 0x10000
  ranged : InRange last

module _ (image : List ℕ) (len : length image ≡ 0x8000) (bytes : AllBytes image) where
  Ends-step :
      (n k acc v : ℕ) (out : Result Fault Sum)
      → drop k image ≡ v ∷ drop (suc k) image
      → Ends image n (suc k) ((acc + v) % 0x10000) out
      → Ends image (suc n) k acc out
  unfolding sum take
  Ends-step n k acc v out e h = record {
    last = h.last;
    returns = h.returns;
    summed = rw e (omega (arith, h.summed));
    ranged = h.ranged;
  }

  sum_from_step :
      (fuel address k v : ℕ) (s : Sum)
      → address ≡ 0x8000 + k
      → address < 0xFDFD
      → get_elem? image k ≡ some v
      → sum_from (suc fuel) image address s ≡ sum_from fuel image (address + 1) (add_byte v s)
  unfolding sum_from
  sum_from_step fuel address k v s a h at =
      let go : ltb address 0xFDFD ≡ true = ground arith in
      let z : address - 0x8000 ≡ k = omega arith in rw (go, z, at, sum_from)

  sum_from_stop :
      (fuel address : ℕ) (s : Sum) → 0xFDFD ≤ address → sum_from (suc fuel) image address s ≡ ok s
  unfolding sum_from
  sum_from_stop fuel address s h =
      let end : ltb address 0xFDFD ≡ false = ground arith in rw (end, sum_from)

  sum_from-Ends :
      (n fuel k address : ℕ) (s : Sum)
      → n + k ≡ 0x7DFD
      → n < fuel
      → address ≡ 0x8000 + k
      → InRange s
      → Ends image n k (value s) (sum_from fuel image address s)
  sum_from-Ends n zero k address s e f a h = absurd (omega arith)
  sum_from-Ends zero (suc fuel) k address s e f a h =
      rw (sum_from_stop fuel address s (omega arith)) (record {
        last = s;
        returns = refl;
        summed = unfold sum take in (omega (arith, h.high_byte, h.low_byte));
        ranged = h;
      })
  sum_from-Ends (suc n) (suc fuel) k address s e f a h =
      let (v, at, rest) = get_elem?-drop k image (omega arith) in
      let byte : v < 256 = All-get_elem? IsByte k image v bytes at in
      let ih =
        sum_from-Ends n fuel (suc k) (address + 1) (add_byte v s) (omega arith) (omega arith)
          (omega arith) (add_byte-InRange v h) in
      rw (sum_from_step fuel address k v s a (omega arith) at) (
        Ends-step n k (value s) v (sum_from fuel image (address + 1) (add_byte v s)) rest
          (rw (← value-add_byte v byte h) ih))

  zero_sum-Ends :
      Ends image 0x7DFD 0 0 (sum_from 0x8000 image 0x8000 (record { high = 0; low = 0 }))
  zero_sum-Ends =
      sum_from-Ends 0x7DFD 0x8000 0 0x8000 (record { high = 0; low = 0 }) refl (omega arith) refl
        (ground arith)

  complemented_sum-eq-checksum : complemented_sum image ≡ ok (checksum image)
  unfolding complemented_sum checksum complement16 drop
  complemented_sum-eq-checksum =
      rw (len, zero_sum-Ends.returns)
        (ap ok (
          omega (
            arith, zero_sum-Ends.summed, zero_sum-Ends.ranged.high_byte,
            zero_sum-Ends.ranged.low_byte,
          )))

-- On an image of 0x8000 bytes both transcriptions return, and return the checksum that
-- `u17_image.checksum` computes.
pub transcriptions_agree :
    (image : List ℕ)
    → length image ≡ 0x8000
    → AllBytes image
    → (c : Checksum) × (checksum_037c image ≡ ok c)
      × (complemented_sum image ≡ ok c.complement)
      × (c.complement ≡ checksum image)
transcriptions_agree image len bytes =
    let (c, runs, eq, _) = checksum_037c-eq-checksum image len bytes in
    (c, runs, complemented_sum-eq-checksum image len bytes ∙ ap ok (sym eq), eq)
