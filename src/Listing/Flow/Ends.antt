-- ===== src/Listing/Flow/Ends.antt =====
-- The work list runs out: each round takes a row from the queue, and a row is queued again only
-- when its state has changed, which happens at most `height + 1` times.
use mathlib.Core.List.{Memᴰ}
use mathlib.Core.List.Memᴰ
use sc_adat_appliance.Base.{
  ℕ, zero, suc, ◌+◌, ◌-◌, ◌*◌, ◌≤◌, ◌<◌, ◌≡◌, ◌≢◌, refl, sym, ◌∙◌, ◌⊎◌, inl, inr, true, none, some,
  List, [], ◌∷◌, ◌++◌, Bool-cases, length, length-append, length-replicate, get_elem?, replicate,
  arith,
}
use sc_adat_appliance.Base.Cells.{set, length-set, get_elem?-lt, lt-get_elem?}
use sc_adat_appliance.Listing.Flow.{
  Flow, Cell, Work, finished, merge, changes, store, offer, offer_all, expand, loop, dataflow,
  passed_on,
}
use sc_adat_appliance.Listing.Flow.Steps.{IsFlow, offer_all_lem}
use sc_adat_appliance.Listing.Flow.Seed.{seed_lem, seed-some}

module _ {S : Type 0} (f : Flow S) (law : IsFlow f) where
  -- How often an entry can still change.
  room : Cell S → ℕ
  room none = suc f.height
  room (some a) = f.height - law.rank a

  total : List (Cell S) → ℕ
  unfolding room
  total [] = 0
  total (c ∷ cs) = room c + total cs

  total-set :
      (incoming : List (Cell S)) (j : ℕ) (old new : Cell S)
      → get_elem? incoming j ≡ some old
      → total (set incoming j new) + room old ≡ total incoming + room new
  unfolding total set get_elem?
  total-set [] j old new h = cc
  total-set (c ∷ cs) zero old new h =
      let same : c ≡ old = cc in rw same (unfold room in omega arith)
  total-set (c ∷ cs) (suc j) old new h = omega (arith, total-set cs j old new h)

  changed_room :
      (old : Cell S) (out : S)
      → changes f old (merge f old out) ≡ true
      → room (some (merge f old out)) < room old
  unfolding changes merge room
  changed_room none out h = omega (arith, law.rank_le out)
  changed_room (some a) out h =
      let moved : f.join a out ≢ a = λ e. cc ((law.same_iff a (f.join a out)).1 (sym e), h) in
      omega (arith, law.rank_lt a out moved, law.rank_le (f.join a out))

  -- What a round keeps: the number of rows, and a bound on the rounds that are left.
  record Pays (w w' : Work S) : Type 0 where
    size : length w'.incoming ≡ length w.incoming
    work : total w'.incoming + length w'.queue ≤ total w.incoming + length w.queue

  Pays-store :
      (out : S) (j : ℕ) (w : Work S) (old : Cell S)
      → get_elem? w.incoming j ≡ some old
      → Pays w (store f out j w old)
  Pays-store out j w old at_j = elim (Bool-cases (changes f old (merge f old out))) [
    | inl new ↦ rw new (record {
      size = length-set w.incoming j (some (merge f old out));
      work = omega (
        arith,
        length-append w.queue (j ∷ []),
        total-set w.incoming j old (some (merge f old out)) at_j,
        changed_room old out new,
      );
    })
    | inr kept ↦ rw kept (record { size = refl; work = omega arith })
  ]

  -- The rows of the queue have states.
  abbrev AllSet : List (Cell S) → List ℕ → Type 0
  AllSet incoming queue = (i : ℕ) → Memᴰ i queue → (a : S) × (get_elem? incoming i ≡ some (some a))

  Pays-trans : (u v w : Work S) → Pays u v → Pays v w → Pays u w
  Pays-trans u v w p q = record { size = q.size ∙ p.size; work = omega arith }

  store-back :
      (out : S) (j : ℕ) (w : Work S) (old : Cell S) (k : ℕ)
      → Memᴰ k (store f out j w old).queue
      → Memᴰ k w.queue ⊎ (k ≡ j)
  store-back out j w old k m = elim (Bool-cases (changes f old (merge f old out))) [
    | inl new ↦
        let queued : Memᴰ k (w.queue ++ j ∷ []) = rw new at m in
        elim (Memᴰ.append_cases w.queue queued) [
          | inl before ↦ inl before
          | inr last ↦ inr (Memᴰ.eq_of_singleton last)
        ]
    | inr kept ↦ inl (rw kept at m)
  ]

  record Pushes (out : S) (js : List ℕ) (w : Work S) : Type 0 where
    after : Work S
    ran : offer_all f out js w ≡ some after
    pays : Pays w after
    back : (k : ℕ) → Memᴰ k after.queue → Memᴰ k w.queue ⊎ Memᴰ k js

  -- Pushing into rows in range succeeds.
  offer_all-Pushes :
      (out : S) (js : List ℕ) (w : Work S)
      → ((j : ℕ) → Memᴰ j js → j < length w.incoming)
      → Pushes out js w
  unfolding offer_all offer
  offer_all-Pushes out [] w h = record {
    after = w;
    ran = refl;
    pays = record { size = refl; work = omega arith };
    back = λ k m. inl m;
  }
  offer_all-Pushes out (j ∷ js) w h =
      let (old, at_j) = get_elem?-lt w.incoming j (h j (Memᴰ.head refl)) in
      let v = store f out j w old in
      let first : offer f out j w ≡ some v = rw (at_j, offer) refl in
      let paid = Pays-store out j w old at_j in
      let more = offer_all-Pushes out js v (λ k m. rw paid.size (h k (Memᴰ.tail m))) in
      record {
        after = more.after;
        ran = rw first more.ran;
        pays = Pays-trans w v more.after paid more.pays;
        back = λ k m. elim (more.back k m) [
          | inr later ↦ inr (Memᴰ.tail later)
          | inl now ↦ elim (store-back out j w old k now) [
            | inl before ↦ inl before
            | inr here ↦ inr (Memᴰ.head here)
          ]
        ];
      }

  -- Enough fuel for all changes and for the queue lets the loop finish.
  loop_finishes :
      (fuel : ℕ) (incoming : List (Cell S)) (queue : List ℕ)
      → total incoming + length queue ≤ fuel
      → ((i : ℕ) → i < length incoming → (j : ℕ) → Memᴰ j (f.successors i) → j < length incoming)
      → AllSet incoming queue
      → (result : List (Cell S)) × (loop f fuel incoming queue ≡ finished result)
  unfolding loop expand
  loop_finishes zero incoming [] paid ranged ready = (incoming, refl)
  loop_finishes (suc fuel) incoming [] paid ranged ready = (incoming, refl)
  loop_finishes zero incoming (i ∷ rest) paid ranged ready = absurd (omega arith)
  loop_finishes (suc fuel) incoming (i ∷ rest) paid ranged ready =
      let (s, at_i) = ready i (Memᴰ.head refl) in
      let start : Work S = record { incoming = incoming; queue = rest } in
      let out = f.transfer i s in
      let p =
        offer_all-Pushes out (f.successors i) start
          (ranged i (lt-get_elem? incoming i (some s) at_i)) in
      let (pushed, covers) = offer_all_lem f law out (f.successors i) start p.after p.ran in
      let round : expand f i rest incoming (get_elem? incoming i) ≡ passed_on p.after =
        rw (at_i, expand, p.ran) refl in
      let (result, ends) =
        loop_finishes fuel p.after.incoming p.after.queue (omega (arith, p.pays.work))
          (λ k lt j m. rw p.pays.size (ranged k (rw p.pays.size at lt) j m))
          (λ k m. elim (p.back k m) [
            | inl before ↦
                let (a, e) = ready k (Memᴰ.tail before) in
                let (b, e', _) = pushed.grows k a e in (b, e')
            | inr target ↦ let (b, e', _) = covers k target in (b, e')
          ]) in
      (result, rw (round, loop) ends)

  total-grows : (incoming : List (Cell S)) → total incoming ≤ suc f.height * length incoming
  unfolding total room
  total-grows [] = omega arith
  total-grows (none ∷ cs) = grind (arith, total-grows cs)
  total-grows (some a ∷ cs) = grind (arith, total-grows cs)

  -- The analysis of rows whose successors and roots are in range returns.
  pub dataflow_finishes :
      (count : ℕ) (roots : List ℕ)
      → ((i : ℕ) → i < count → (j : ℕ) → Memᴰ j (f.successors i) → j < count)
      → ((r : ℕ) → Memᴰ r roots → r < count)
      → (result : List (Cell S)) × (dataflow f count roots ≡ finished result)
  unfolding dataflow
  dataflow_finishes count roots ranged rooted =
      let blank : List (Cell S) = replicate count none in
      let long : length blank ≡ count = length-replicate count none in
      let (incoming, ok, kept) = seed-some f law roots blank (λ r m. rw long (rooted r m)) in
      let size : length incoming ≡ count = kept ∙ long in
      let seeded = seed_lem f law roots blank incoming ok in
      let enough : total incoming + length roots ≤ length roots + suc f.height * count =
        omega (arith, rw size at (total-grows incoming)) in
      let (result, ends) =
        loop_finishes (length roots + suc f.height * count) incoming roots enough
          (λ i lt j m. rw size (ranged i (rw size at lt) j m))
          (λ r m. let (a, e, _) = seeded.covered r m in (a, e)) in
      (result, rw (ok, dataflow) ends)
