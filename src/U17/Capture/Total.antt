-- ===== src/U17/Capture/Total.antt =====
-- Every file is read to an end: the fuel is never used up.
use sc_adat_appliance.Base.{
  ℕ, ◌+◌, ◌≤◌, ◌<◌, zero, suc, ◌≡◌, ◌≢◌, refl, ap, List, [], ◌∷◌, ◌++◌, arith, inl, inr, Bool-cases,
  length, slice, take, drop, ltb,
}
use sc_adat_appliance.Base.Bytes.{same}
use sc_adat_appliance.Base.Result.{Result, ok, err, ◌>>=◌}
use sc_adat_appliance.U17.Capture.{Record, out_of_fuel, magic, read_one, read_from, read_capture}

-- A round takes thirteen bytes at least and stays in the file.
read_one-next :
    (file : List ℕ) (offset : ℕ) (r : Record) (next : ℕ)
    → read_one file offset ≡ ok (r, next)
    → (offset + 13 ≤ next) × (next ≤ length file)
unfolding read_one
read_one-next file offset r next h = ground (arith, h)

read_one-error : (file : List ℕ) (offset : ℕ) → read_one file offset ≢ err out_of_fuel
unfolding read_one
read_one-error file offset = ground arith

-- Binding keeps away from an error that neither part gives.
bind-no_error {ℓ κ μ} :
    {E : Type κ} {A : Type ℓ} {B : Type μ} (e : E) (m : Result E A) (f : A → Result E B)
    → m ≢ err e
    → ((a : A) → m ≡ ok a → f a ≢ err e)
    → (m >>= f) ≢ err e
bind-no_error e (ok a) f hm hf = hf a refl
bind-no_error e (err d) f hm hf = λ h. hm (ap err (ground (arith, h)))

read_from_step :
    (fuel : ℕ) (file : List ℕ) (offset : ℕ) (records : List Record)
    → ((read : Record × ℕ)
        → read_one file offset ≡ ok read
        → read_from fuel file read.1 (records ++ read.0 ∷ []) ≢ err out_of_fuel)
    → read_from (suc fuel) file offset records ≢ err out_of_fuel
unfolding read_from
read_from_step fuel file offset records h = elim (Bool-cases (ltb offset (length file))) [
  | inr e ↦ rw (read_from, e) (λ k. cc k)
  | inl e ↦
      rw (read_from, e)
        (bind-no_error out_of_fuel (read_one file offset) _ (read_one-error file offset) h)
]

read_from-fuel :
    (fuel : ℕ) (file : List ℕ) (offset : ℕ) (records : List Record)
    → length file < fuel + offset
    → read_from (suc fuel) file offset records ≢ err out_of_fuel
read_from-fuel zero file offset records h = unfold read_from in ground arith
read_from-fuel (suc fuel) file offset records h =
    read_from_step (suc fuel) file offset records (λ read at.
      read_from-fuel fuel file read.1 (records ++ read.0 ∷ [])
        (omega (arith, h, (read_one-next file offset read.0 read.1 at).0)))

-- Whatever the file holds, it is read to its end or to an error of the code.
pub read_capture_total : (file : List ℕ) → read_capture file ≢ err out_of_fuel
unfolding read_capture
read_capture_total [] = unfold slice take drop same in λ h. cc h
read_capture_total (b ∷ bs) = elim (Bool-cases (same (slice 0 8 (b ∷ bs)) magic)) [
  | inl e ↦ rw e (read_from-fuel (length bs) (b ∷ bs) 8 [] (omega arith))
  | inr e ↦ rw e (λ h. cc h)
]
