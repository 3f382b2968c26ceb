-- ===== src/Listing/Flow/Sound.antt =====
-- A finished work list is a fixed point, and covers what every walk through the rows computes.
use mathlib.Core.List.{Memᴰ}
use mathlib.Core.List.Memᴰ
use native.Mathlib.Decide.{ℕ_discrete}
use sc_adat_appliance.Base.{
  ℕ, zero, suc, ◌+◌, ◌*◌, ◌≡◌, refl, sym, ◌∙◌, ◌⊎◌, inl, inr, Option, none, some, List, [], ◌∷◌,
  length, get_elem?, replicate,
}
use sc_adat_appliance.Listing.Flow.{
  Flow, Cell, Work, finished, index_error, unset, Round, out_of_range, no_state, passed_on,
  offer_all, expand, loop, seed, dataflow,
}
use sc_adat_appliance.Listing.Flow.Steps.{
  IsFlow, Covers, Grows, Covers-Grows, Grows-refl, Grows-trans, Pushed, offer_all_lem,
}
use sc_adat_appliance.Listing.Flow.Seed.{seed_lem, get_elem?-blank}

-- A walk from row `i` with state `a` before it, to row `j` with state `b` before it.
pub data Walk {S : Type 0} (f : Flow S) (i : ℕ) (a : S) : ℕ → S → Type 0 where
  here : Walk f i a i a
  next :
      {j : ℕ} {b : S} (k : ℕ)
      → Walk f i a j b
      → Memᴰ k (f.successors j)
      → Walk f i a k (f.transfer j b)

module _ {S : Type 0} (f : Flow S) (law : IsFlow f) where
  abbrev pub Closed : List (Cell S) → ℕ → S → Type 0
  Closed incoming i a = (j : ℕ) → Memᴰ j (f.successors i) → Covers f law incoming j (f.transfer i a)

  -- Each row that has a state is in the queue or has passed its state on.
  abbrev pub Settled : List (Cell S) → List ℕ → Type 0
  Settled incoming queue =
      (i : ℕ) (a : S) → get_elem? incoming i ≡ some (some a) → Memᴰ i queue ⊎ Closed incoming i a

  expand-Settled :
      (i : ℕ) (rest : List ℕ) (incoming : List (Cell S)) (c : Option (Cell S)) (w : Work S)
      → get_elem? incoming i ≡ c
      → expand f i rest incoming c ≡ passed_on w
      → Settled incoming (i ∷ rest)
      → Settled w.incoming w.queue × Grows f law incoming w.incoming
  unfolding expand
  expand-Settled i rest incoming none w at_i h settled = cc
  expand-Settled i rest incoming (some none) w at_i h settled = cc
  expand-Settled i rest incoming (some (some s)) w at_i h settled =
      pushed
        (offer_all f (f.transfer i s) (f.successors i)
          (record { incoming = incoming; queue = rest }))
        refl h
    where
      start : Work S
      start = record { incoming = incoming; queue = rest }

      pushed :
          (o : Option (Work S))
          → offer_all f (f.transfer i s) (f.successors i) start ≡ o
          → ◌≡◌ {A = Round S} (elim o [ none ↦ out_of_range | some v ↦ passed_on v ]) (passed_on w)
          → Settled w.incoming w.queue × Grows f law incoming w.incoming
      pushed none e k = cc
      pushed (some v) e k =
          let same : v ≡ w = cc in
          let (p, covers) = offer_all_lem f law (f.transfer i s) (f.successors i) start v e in
          rw (← same) (
            λ (j : ℕ) (a : S) (at_j : get_elem? v.incoming j ≡ some (some a)).
                row p covers j a at_j (p.marked j),
            p.grows,
          )
        where
          row :
              Pushed f law start v
              → ((j : ℕ) → Memᴰ j (f.successors i) → Covers f law v.incoming j (f.transfer i s))
              → (j : ℕ) (a : S) → get_elem? v.incoming j ≡ some (some a)
              → (get_elem? v.incoming j ≡ get_elem? incoming j) ⊎ Memᴰ j v.queue
              → Memᴰ j v.queue ⊎ Closed v.incoming j a
          row p covers j a at_j (inr m) = inl m
          row p covers j a at_j (inl same) =
              let before : get_elem? incoming j ≡ some (some a) = sym same ∙ at_j in
              elim (ℕ_discrete j i) [
                | yes here_too ↦ let eq : a ≡ s = cc in inr (rw (here_too, eq) covers)
                | no other ↦ elim (settled j a before) [
                  | inl m ↦ elim (Memᴰ.cases_cons m) [
                    | inl head ↦ absurd (other head)
                    | inr m' ↦ inl (p.queued j m')
                  ]
                  | inr closed ↦
                      inr λ k m. Covers-Grows f law incoming v.incoming k _ p.grows (closed k m)
                ]
              ]

  -- The loop keeps the entries growing, and ends with every row closed.
  loop-Settled :
      (fuel : ℕ) (incoming : List (Cell S)) (queue : List ℕ) (result : List (Cell S))
      → loop f fuel incoming queue ≡ finished result
      → Settled incoming queue
      → Settled result [] × Grows f law incoming result
  unfolding loop
  loop-Settled zero incoming [] result h settled =
      let same : incoming ≡ result = cc in rw (← same) (settled, Grows-refl f law incoming)
  loop-Settled (suc fuel) incoming [] result h settled =
      let same : incoming ≡ result = cc in rw (← same) (settled, Grows-refl f law incoming)
  loop-Settled zero incoming (i ∷ rest) result h settled = cc
  loop-Settled (suc fuel) incoming (i ∷ rest) result h settled =
      go (loop-Settled fuel) (expand f i rest incoming (get_elem? incoming i)) refl h
    where
      go :
          ((inc : List (Cell S)) (q : List ℕ) (res : List (Cell S))
            → loop f fuel inc q ≡ finished res
            → Settled inc q
            → Settled res [] × Grows f law inc res)
          → (o : Round S) → expand f i rest incoming (get_elem? incoming i) ≡ o
          → elim o [
            | out_of_range ↦ index_error
            | no_state ↦ unset
            | passed_on w ↦ loop f fuel w.incoming w.queue
          ]
            ≡ finished result
          → Settled result [] × Grows f law incoming result
      go ih out_of_range e k = cc
      go ih no_state e k = cc
      go ih (passed_on w) e k =
          let (s, grows) = expand-Settled i rest incoming (get_elem? incoming i) w refl e settled in
          let (done, later) = ih w.incoming w.queue result k s in
          (done, Grows-trans f law incoming w.incoming result grows later)

  -- What a walk computes is covered where it ends.
  walk-Covers :
      (incoming : List (Cell S)) (i : ℕ) (a : S) (k : ℕ) (b : S)
      → Settled incoming []
      → Covers f law incoming i a
      → Walk f i a k b
      → Covers f law incoming k b
  walk-Covers incoming i a _ _ settled start here = start
  walk-Covers incoming i a _ _ settled start (next {j} {b = c} k walk m) =
      let (t, at_j, le) = walk-Covers incoming i a j c settled start walk in
      elim (settled j t at_j) [
        | inl waiting ↦ absurd (Memᴰ.not-nil waiting)
        | inr closed ↦
            let (u, at_k, le') = closed k m in
            (u, at_k, law.trans (f.transfer j c) (f.transfer j t) u (law.mono j c t le) le')
      ]

  -- The result covers what every walk from a root computes.
  pub dataflow-Covers :
      (count : ℕ) (roots : List ℕ) (result : List (Cell S)) (root k : ℕ) (b : S)
      → dataflow f count roots ≡ finished result
      → Memᴰ root roots
      → Walk f root f.unknown k b
      → Covers f law result k b
  unfolding dataflow
  dataflow-Covers count roots result root k b h m walk =
      go (seed f roots (replicate count none)) refl h
    where
      go :
          (o : Option (List (Cell S)))
          → seed f roots (replicate count none) ≡ o
          → elim o [
            | none ↦ index_error
            | some incoming ↦ loop f (length roots + suc f.height * count) incoming roots
          ]
            ≡ finished result
          → Covers f law result k b
      go none e run = cc
      go (some incoming) e run =
          let s = seed_lem f law roots (replicate count none) incoming e in
          let (settled, grows) =
            loop-Settled (length roots + suc f.height * count) incoming roots result run
              (λ i a at_i. elim (s.others i) [
                | inl same ↦ absurd (get_elem?-blank count i a (sym same ∙ at_i))
                | inr queued ↦ inl queued
              ]) in
          walk-Covers result root f.unknown k b settled
            (Covers-Grows f law incoming result root f.unknown grows (s.covered root m)) walk
