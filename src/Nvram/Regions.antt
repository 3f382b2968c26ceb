-- ===== src/Nvram/Regions.antt =====
-- The reported regions hold exactly the bytes that are not zero.
use sc_adat_appliance.Base.{
  ℕ, ◌+◌, ◌-◌, ◌≤◌, ◌<◌, suc, ◌≡◌, refl, ◌∙◌, Bool, false, ◌&&◌, ◌||◌, Option, none, some, List, [],
  ◌∷◌, ◌++◌, arith, get_elem?, ltb, leb, ◌==◌, if◌then◌else◌, Bool-cases, inl, inr, All, if_both,
}
use sc_adat_appliance.Nvram.{reported, scan, runs, Region, as_regions, is_nonzero, nonzero_regions}

abbrev pub lies_in : ℕ → List Region → Bool
lies_in k [] = false
lies_in k (r ∷ rs) = leb r.start k && leb k r.end || lies_in k rs

abbrev in_run : ℕ → List (ℕ × ℕ) → Bool
in_run k [] = false
in_run k ((start, end) ∷ rest) = leb start k && ltb k end || in_run k rest

abbrev pub is_in_at : (ℕ → Bool) → Option ℕ → Bool
is_in_at is_in none = false
is_in_at is_in (some b) = is_in b

-- The byte at an index of a list that starts at another index.
abbrev at : (ℕ → Bool) → ℕ → ℕ → List ℕ → Bool
at is_in k index bs = is_in_at is_in (get_elem? bs (k - index))

at_here : (is_in : ℕ → Bool) (k b : ℕ) (bs : List ℕ) → at is_in k k (b ∷ bs) ≡ is_in b
unfolding get_elem?
at_here is_in k b bs = let zero_off : k - k ≡ 0 = omega arith in rw zero_off refl

at_later :
    (is_in : ℕ → Bool) (k index b : ℕ) (bs : List ℕ)
    → index < k
    → at is_in k index (b ∷ bs) ≡ at is_in k (index + 1) bs
unfolding get_elem?
at_later is_in k index b bs h =
    let step : k - index ≡ suc (k - (index + 1)) = omega (arith, h) in rw step refl

at-cons :
    (is_in : ℕ → Bool) (k index b : ℕ) (bs : List ℕ)
    → index ≤ k
    → at is_in k index (b ∷ bs) ≡ (if k == index then is_in b else at is_in k (index + 1) bs)
at-cons is_in k index b bs h = elim (Bool-cases (k == index)) [
  | inl e ↦
      let here : k ≡ index = ground (arith, e) in rw here (at_here is_in index b bs ∙ ground arith)
  | inr e ↦ rw e (at_later is_in k index b bs (ground (arith, e, h)))
]

in_run-reported :
    (k start end : ℕ) (rest : List (ℕ × ℕ))
    → in_run k (reported 0 start end rest) ≡ (leb start k && ltb k end || in_run k rest)
in_run-reported k start end rest = ground arith

module _ (is_in : ℕ → Bool) (last : ℕ) (out : is_in last ≡ false) where
  -- Where a run may lie: from the index on, or from the start of the open run on.
  abbrev begins : Option ℕ → ℕ → ℕ → List ℕ → Bool
  begins none index k bs = leb index k && at is_in k index bs
  begins (some start) index k bs = leb start k && (ltb k index || at is_in k index bs)

  abbrev IsBefore : Option ℕ → ℕ → Type 0
  IsBefore none index = Unit
  IsBefore (some start) index = start ≤ index

  -- A number lies in a run exactly if its byte belongs in one; an open run holds all from its start.
  in_run-scan :
      (k index : ℕ) (start : Option ℕ) (bs : List ℕ)
      → IsBefore start index
      → in_run k (scan is_in 0 index start (bs ++ last ∷ [])) ≡ begins start index k bs
  unfolding scan
  in_run-scan k index none [] h = unfold get_elem? in (rw out (ground arith))
  in_run-scan k index (some start) [] h = unfold get_elem? in (rw out (ground arith))
  in_run-scan k index none (b ∷ bs) h = elim (Bool-cases (is_in b)) [
    | inl e ↦
        rw (e, in_run-scan k (index + 1) (some index) bs (omega arith))
          (elim (Bool-cases (leb index k)) [
            | inl f ↦
                let cons = at-cons is_in k index b bs (ground (arith, f)) in
                ground (arith, e, f, cons)
            | inr f ↦ ground (arith, f)
          ])
    | inr e ↦
        rw (e, in_run-scan k (index + 1) none bs tt)
          (elim (Bool-cases (leb index k)) [
            | inl f ↦
                let cons = at-cons is_in k index b bs (ground (arith, f)) in
                ground (arith, e, f, cons)
            | inr f ↦ ground (arith, f)
          ])
  ]
  in_run-scan k index (some start) (b ∷ bs) h = elim (Bool-cases (is_in b)) [
    | inl e ↦
        rw (e, in_run-scan k (index + 1) (some start) bs (omega (arith, h)))
          (elim (Bool-cases (leb index k)) [
            | inl f ↦
                let cons = at-cons is_in k index b bs (ground (arith, f)) in
                ground (arith, e, f, cons, h)
            | inr f ↦ ground (arith, f, h)
          ])
    | inr e ↦
        rw
          (
            e,
            in_run-reported k start index (scan is_in 0 (index + 1) none (bs ++ last ∷ [])),
            in_run-scan k (index + 1) none bs tt,
          )
          (elim (Bool-cases (leb index k)) [
            | inl f ↦
                let cons = at-cons is_in k index b bs (ground (arith, f)) in
                ground (arith, e, f, cons, h)
            | inr f ↦ ground (arith, f, h)
          ])
  ]

-- A run that ends behind its start.
abbrev IsRun : ℕ × ℕ → Type 0
IsRun (start, end) = start < end

reported-IsRun :
    (start end : ℕ) (rest : List (ℕ × ℕ))
    → start < end
    → All IsRun rest
    → All IsRun (reported 0 start end rest)
reported-IsRun start end rest h later =
    if_both (All IsRun) (leb 0 (end - start)) _ _ (h, later) later

-- An open run has begun before the index.
abbrev IsBegun : Option ℕ → ℕ → Type 0
IsBegun none index = Unit
IsBegun (some start) index = start < index

scan-IsRun :
    (is_in : ℕ → Bool) (index : ℕ) (start : Option ℕ) (bs : List ℕ)
    → IsBegun start index
    → All IsRun (scan is_in 0 index start bs)
unfolding scan
scan-IsRun is_in index start [] h = tt
scan-IsRun is_in index none (b ∷ bs) h =
    if_both (All IsRun) (is_in b) _ _ (scan-IsRun is_in (index + 1) (some index) bs (omega arith))
      (scan-IsRun is_in (index + 1) none bs tt)
scan-IsRun is_in index (some start) (b ∷ bs) h =
    if_both (All IsRun) (is_in b) _ _
      (scan-IsRun is_in (index + 1) (some start) bs (omega (arith, h)))
      (reported-IsRun start index _ h (scan-IsRun is_in (index + 1) none bs tt))

lies_in-as_regions :
    (k : ℕ) (runs : List (ℕ × ℕ)) → All IsRun runs → lies_in k (as_regions runs) ≡ in_run k runs
lies_in-as_regions k [] h = refl
lies_in-as_regions k ((start, end) ∷ rest) h =
    let inside : leb k (end - 1) ≡ ltb k end = ground (arith, h.0) in
    rw (lies_in-as_regions k rest h.1, inside) refl

-- The length of a region is that from its first offset to its last.
abbrev pub Measures : Region → Type 0
Measures r = r.start + r.length ≡ r.end + 1

as_regions-Measures : (runs : List (ℕ × ℕ)) → All IsRun runs → All Measures (as_regions runs)
as_regions-Measures [] h = tt
as_regions-Measures ((start, end) ∷ rest) h = (omega (arith, h.0), as_regions-Measures rest h.1)

-- An offset lies in a reported region, from its first offset to its last, exactly if there is a
-- byte at it that is not zero; and the length of each region is that of its offsets.
pub nonzero_regions-is_nonzero :
    (bytes : List ℕ)
    → ((k : ℕ) → lies_in k (nonzero_regions bytes) ≡ is_in_at is_nonzero (get_elem? bytes k))
      × All Measures (nonzero_regions bytes)
unfolding nonzero_regions
nonzero_regions-is_nonzero bytes =
    let proper = scan-IsRun is_nonzero 0 none (bytes ++ 0 ∷ []) tt in
    (
      λ k.
          lies_in-as_regions k (runs is_nonzero 0 bytes) proper
          ∙ in_run-scan is_nonzero 0 refl k 0 none bytes tt
          ∙ ground arith,
      as_regions-Measures (runs is_nonzero 0 bytes) proper,
    )
