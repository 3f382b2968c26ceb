-- ===== src/Listing/Flow/Seed.antt =====
-- The states and the queue with which the work list starts.
use mathlib.Core.List.{Memᴰ}
use mathlib.Core.List.Memᴰ
use native.Mathlib.Decide.{ℕ_discrete}
use sc_adat_appliance.Base.{
  ℕ, zero, suc, ◌≡◌, ◌<◌, refl, sym, ◌∙◌, ◌⊎◌, inl, inr, Option, none, some, List, [], ◌∷◌, length,
  get_elem?, replicate,
}
use sc_adat_appliance.Base.Cells.{
  set, get_elem?-set_self, get_elem?-set_ne, length-set, get_elem?-lt,
}
use sc_adat_appliance.Listing.Flow.{Flow, Cell, merge, seed}
use sc_adat_appliance.Listing.Flow.Steps.{
  IsFlow, Covers, Grows, Covers-Grows, Grows-refl, Grows-trans, Grows-set, merge_right,
}

pub get_elem?-blank :
    {S : Type 0} (n i : ℕ) (a : S) → get_elem? (replicate {A = Cell S} n none) i ≡ some (some a) → ⊥
unfolding get_elem? replicate
get_elem?-blank zero i a h = cc
get_elem?-blank (suc n) zero a h = cc
get_elem?-blank (suc n) (suc i) a h = get_elem?-blank n i a h

module _ {S : Type 0} (f : Flow S) (law : IsFlow f) where
  -- The roots get a state that covers `unknown`, and nothing else changes.
  pub record Seeded (roots : List ℕ) (before after : List (Cell S)) : Type 0 where
    pub grows : Grows f law before after
    pub covered : (r : ℕ) → Memᴰ r roots → Covers f law after r f.unknown
    pub others : (i : ℕ) → (get_elem? after i ≡ get_elem? before i) ⊎ Memᴰ i roots

  pub seed_lem :
      (roots : List ℕ) (before after : List (Cell S))
      → seed f roots before ≡ some after
      → Seeded roots before after
  unfolding seed
  seed_lem [] before after h =
      let same : before ≡ after = cc in
      rw (← same) (record {
        grows = Grows-refl f law before;
        covered = λ r m. absurd (Memᴰ.not-nil m);
        others = λ i. inl refl;
      })
  seed_lem (r ∷ rs) before after h = go (seed_lem rs) (get_elem? before r) refl h
    where
      go :
          ((x y : List (Cell S)) → seed f rs x ≡ some y → Seeded rs x y)
          → (o : Option (Cell S)) → get_elem? before r ≡ o
          → elim o [
            | none ↦ none
            | some old ↦ seed f rs (set before r (some (merge f old f.unknown)))
          ]
            ≡ some after
          → Seeded (r ∷ rs) before after
      go ih none e k = cc
      go ih (some old) e k =
          let mid = set before r (some (merge f old f.unknown)) in
          let s = ih mid after k in
          let up = Grows-set f law before r old f.unknown e in
          let here : Covers f law mid r f.unknown = (
            merge f old f.unknown,
            get_elem?-set_self before r (some (merge f old f.unknown)) old e,
            merge_right f law old f.unknown,
          ) in
          record {
            grows = Grows-trans f law before mid after up s.grows;
            covered = λ k m. elim (Memᴰ.cases_cons m) [
              | inl same ↦ rw same (Covers-Grows f law mid after r f.unknown s.grows here)
              | inr m' ↦ s.covered k m'
            ];
            others = λ i. elim (s.others i) [
              | inr m ↦ inr (Memᴰ.tail m)
              | inl same ↦ elim (ℕ_discrete r i) [
                | yes eq ↦ inr (Memᴰ.head (sym eq))
                | no ne ↦ inl (same ∙ get_elem?-set_ne before r i (some (merge f old f.unknown)) ne)
              ]
            ];
          }

  -- With roots in range the seeding succeeds, and keeps the length.
  pub seed-some :
      (roots : List ℕ) (before : List (Cell S))
      → ((r : ℕ) → Memᴰ r roots → r < length before)
      → (after : List (Cell S)) × (seed f roots before ≡ some after)
        × (length after ≡ length before)
  unfolding seed
  seed-some [] before h = (before, refl, refl)
  seed-some (r ∷ rs) before h =
      let (old, e) = get_elem?-lt before r (h r (Memᴰ.head refl)) in
      let mid = set before r (some (merge f old f.unknown)) in
      let long = length-set before r (some (merge f old f.unknown)) in
      let (after, ok, kept) = seed-some rs mid (λ k m. rw long (h k (Memᴰ.tail m))) in
      (after, rw (e, seed) ok, kept ∙ long)
