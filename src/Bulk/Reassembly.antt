-- ===== src/Bulk/Reassembly.antt =====
-- The client of the bulk state gets the server's state, in whatever order its datagrams arrive.
use sc_adat_appliance.Base.{
  ℕ, ◌+◌, ◌*◌, ◌≤◌, ◌<◌, zero, suc, ◌≡◌, refl, sym, ap, ◌∙◌, ◌⊎◌, inl, inr, Bool, true, ◌&&◌,
  Option, none, some, List, [], ◌∷◌, ◌++◌, arith, length, take, ◌==◌, All, Bool-cases, take_all,
}
use sc_adat_appliance.Base.Dict.{get}
use sc_adat_appliance.Base.Int.{ℤ, pos}
use sc_adat_appliance.Base.Result.{ok}
use sc_adat_appliance.Base.Sealed.{◌>>=◌, bind_ok}
use sc_adat_appliance.Base.Text.{Text}
use sc_adat_appliance.Osc.{Floats}
use sc_adat_appliance.Bulk.{Value, part}
use sc_adat_appliance.Bulk.Client.{
  Client, Entries, all_below, has_below, has_all, is_there, update, collect, collect_one, counted,
  finish,
}
use sc_adat_appliance.Bulk.Pairs.{
  Distinct, keys, keys-append, delivered, keys-delivered, length-delivered, delivered-append,
  update_new, Distinct-take,
}
use sc_adat_appliance.Bulk.Indexes.{get-All, get-has_below, has_below-get, length_once}
use sc_adat_appliance.Bulk.Parts.{take_next}
use sc_adat_appliance.Bulk.Held.{Held, IsHolding}

module _ (floats : Floats) (equal : floats.F → floats.F → Bool) (snapshot : Text)
    (items : List (Text × Value (floats.F))) (n : ℕ) (apart : Distinct (keys items))
    (enough : length items ≤ n * 8) where
  open floats use {F}

  -- The items before an index, and its part, are the items before the next one.
  update-part :
      (i : ℕ)
      → update (delivered floats (take (i * 8) items)) (delivered floats (part 8 items i))
        ≡ delivered floats (take ((i + 1) * 8) items)
  update-part i =
      let before = take (i * 8) items in
      let whole = take_next 8 i items in
      let distinct : Distinct
          (keys (delivered floats before) ++ keys (delivered floats (part 8 items i))) =
        rw
          (
            keys-delivered floats before,
            keys-delivered floats (part 8 items i),
            ← keys-append before (part 8 items i),
            whole,
          )
          (Distinct-take ((i + 1) * 8) items apart) in
      update_new (delivered floats before) (delivered floats (part 8 items i)) distinct
      ∙ sym (delivered-append floats before (part 8 items i))
      ∙ ap (λ (es : List (Text × Value F)). delivered floats es) whole

  collect_one-held :
      (m : Client F) (i : ℕ) (o : Option (ℤ × Entries F))
      → IsHolding floats snapshot items n m
      → get i m.chunks ≡ o
      → is_there o ≡ true
      → collect_one floats equal (pos n) (delivered floats (take (i * 8) items)) o
        ≡ ok (delivered floats (take ((i + 1) * 8) items))
  collect_one-held m i none h e there = cc
  collect_one-held m i (some (t, es)) h e there =
      let (below, total, entries) = get-All (Held floats items n) i (t, es) m.chunks h.held e in
      rw (total, entries, update-part i) (ground arith)

  collect-held :
      (m : Client F) (rounds i : ℕ)
      → IsHolding floats snapshot items n m
      → i + rounds ≡ n
      → ((k : ℕ) → k < n → is_there (get k m.chunks) ≡ true)
      → collect floats equal rounds i (pos n) m.chunks (delivered floats (take (i * 8) items))
        ≡ ok (delivered floats (take (n * 8) items))
  unfolding collect
  collect-held m zero i h e there = let same : i ≡ n = omega (arith, e) in rw same refl
  collect-held m (suc rounds) i h e there =
      bind_ok _ (collect_one-held m i (get i m.chunks) h refl (there i (omega (arith, e)))) (
        let next : suc i ≡ i + 1 = omega arith in
        rw (← next) (collect-held m rounds (suc i) h (omega (arith, e)) there))

  held_all_below :
      (d : List (ℕ × (ℤ × Entries F))) → All (Held floats items n) d → all_below n d ≡ true
  unfolding all_below
  held_all_below [] h = refl
  held_all_below ((i, p) ∷ rest) h = ground (arith, held_all_below rest h.1, h.0.0)

  nothing : (xs : List (Text × Value F)) → delivered floats (take 0 xs) ≡ []
  unfolding take
  nothing [] = refl
  nothing (x ∷ xs) = refl

  collected :
      (m : Client F)
      → IsHolding floats snapshot items n m
      → ((k : ℕ) → k < n → is_there (get k m.chunks) ≡ true)
      → (collect floats equal n 0 (pos n) m.chunks [] >>= counted floats equal (pos (length items)))
        ≡ ok (delivered floats items)
  collected m h there =
      let start : delivered floats (take 0 items) ≡ [] = nothing items in
      bind_ok _ (rw start at (collect-held m n 0 h (omega arith) there))
        (rw (take_all (n * 8) items enough, length-delivered floats items) (ground arith))

  -- Once the completion and all chunks are there, the client returns the state.
  pub finish-all :
      (m : Client F)
      → IsHolding floats snapshot items n m
      → m.completion ≡ some (pos n, pos (length items))
      → ((k : ℕ) → k < n → is_there (get k m.chunks) ≡ true)
      → finish floats equal m ≡ some (ok (delivered floats items))
  unfolding finish has_all
  finish-all m h e there =
      let below = held_all_below m.chunks h.held in
      let count = length_once n m.chunks h.once below there in
      let covered = get-has_below n m.chunks there in
      let all : (length m.chunks == n && all_below n m.chunks && has_below n m.chunks) ≡ true =
        ground (arith, below, count, covered) in
      rw (e, all) (ap some (collected m h there))

  -- After a datagram the client goes on, or has the state.
  pub finish-cases :
      (m : Client F)
      → IsHolding floats snapshot items n m
      → (finish floats equal m ≡ none)
        ⊎ (finish floats equal m ≡ some (ok (delivered floats items)))
  finish-cases m h = elim h.completed [
    | inl e ↦ unfold finish in inl (rw e refl)
    | inr e ↦ elim (Bool-cases (has_all (pos n) m.chunks)) [
      | inr f ↦ unfold finish in inl (rw (e, f) refl)
      | inl f ↦
          unfold has_all in
          inr (finish-all m h e (λ k lt. has_below-get n k m.chunks (ground (arith, f)) lt))
    ]
  ]
