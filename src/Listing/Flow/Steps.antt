-- ===== src/Listing/Flow/Steps.antt =====
-- The order of the states, and what one round of the work list changes.
use mathlib.Core.List.{Memᴰ}
use mathlib.Core.List.Memᴰ
use sc_adat_appliance.Base.{
  ℕ, ◌≤◌, ◌<◌, ◌≡◌, ◌≢◌, refl, ap, sym, ◌∙◌, ◌↔◌, ◌⊎◌, inl, inr, true, false, Option, none, some,
  List, [], ◌∷◌, Bool-cases, get_elem?, arith,
}
use sc_adat_appliance.Base.Cells.{set, get_elem?-set_self, get_elem?-set_ne}
use sc_adat_appliance.Listing.Flow.{
  Flow, Cell, Work, merge, changes, offer, store, offer_all, then_offer,
}
use native.Mathlib.Decide.{ℕ_discrete}

-- `b` is at least as uncertain as `a`: merging `a` into it changes nothing.
abbrev pub Below : {S : Type 0} → Flow S → S → S → Type 0
Below f a b = f.join b a ≡ b

pub record IsFlow {S : Type 0} (f : Flow S) : Type 0 where
  pub same_iff : (a b : S) → (f.same a b ≡ true) ↔ (a ≡ b)
  pub idem : (a : S) → Below f a a
  pub left : (a b : S) → Below f a (f.join a b)
  pub right : (a b : S) → Below f b (f.join a b)
  pub trans : (a b c : S) → Below f a b → Below f b c → Below f a c
  pub rank : S → ℕ
  pub rank_le : (a : S) → rank a ≤ f.height
  pub rank_lt : (a b : S) → f.join a b ≢ a → rank a < rank (f.join a b)
  pub mono : (i : ℕ) (a b : S) → Below f a b → Below f (f.transfer i a) (f.transfer i b)

module _ {S : Type 0} (f : Flow S) (law : IsFlow f) where
  -- The entry holds a state that is at least as uncertain as `a`.
  abbrev pub Covers : List (Cell S) → ℕ → S → Type 0
  Covers incoming i a = (b : S) × (get_elem? incoming i ≡ some (some b)) × Below f a b

  abbrev pub Grows : List (Cell S) → List (Cell S) → Type 0
  Grows before after = (i : ℕ) (a : S) → get_elem? before i ≡ some (some a) → Covers after i a

  pub Covers-Grows :
      (before after : List (Cell S)) (i : ℕ) (a : S)
      → Grows before after
      → Covers before i a
      → Covers after i a
  Covers-Grows before after i a grows (b, e, le) =
      let (c, e', le') = grows i b e in (c, e', law.trans a b c le le')

  pub Grows-refl : (incoming : List (Cell S)) → Grows incoming incoming
  Grows-refl incoming i a e = (a, e, law.idem a)

  pub Grows-trans : (x y z : List (Cell S)) → Grows x y → Grows y z → Grows x z
  Grows-trans x y z xy yz i a e = Covers-Grows y z i a yz (xy i a e)

  pub merge_left : (old new : S) → Below f old (merge f (some old) new)
  unfolding merge
  merge_left old new = law.left old new

  pub merge_right : (old : Cell S) (new : S) → Below f new (merge f old new)
  unfolding merge
  merge_right none new = law.idem new
  merge_right (some old) new = law.right old new

  -- Writing the merge of an entry makes the states grow.
  pub Grows-set :
      (incoming : List (Cell S)) (j : ℕ) (old : Cell S) (new : S)
      → get_elem? incoming j ≡ some old
      → Grows incoming (set incoming j (some (merge f old new)))
  Grows-set incoming j old new at_j i a e = elim (ℕ_discrete j i) [
    | yes same ↦ here old at_j (ap (λ k. get_elem? incoming k) same ∙ e) same
    | no other ↦ (a, get_elem?-set_ne incoming j i (some (merge f old new)) other ∙ e, law.idem a)
  ]
    where
      here :
          (o : Cell S)
          → get_elem? incoming j ≡ some o
          → get_elem? incoming j ≡ some (some a)
          → j ≡ i
          → Covers (set incoming j (some (merge f o new))) i a
      here none h k s = cc
      here (some o) h k s =
          let eq : a ≡ o = cc in
          (
            merge f (some o) new,
            ap (get_elem? (set incoming j (some (merge f (some o) new)))) (sym s)
                ∙ get_elem?-set_self incoming j (some (merge f (some o) new)) (some o) h,
            rw eq (merge_left o new),
          )

  -- What pushing a state into rows does: entries grow, and a row is queued where its entry changes.
  pub record Pushed (w w' : Work S) : Type 0 where
    pub grows : Grows w.incoming w'.incoming
    pub queued : (i : ℕ) → Memᴰ i w.queue → Memᴰ i w'.queue
    pub marked : (i : ℕ) → (get_elem? w'.incoming i ≡ get_elem? w.incoming i) ⊎ Memᴰ i w'.queue

  Pushed-refl : (w : Work S) → Pushed w w
  Pushed-refl w = record {
    grows = Grows-refl w.incoming;
    queued = λ i m. m;
    marked = λ i. inl refl;
  }

  Pushed-trans : (u v w : Work S) → Pushed u v → Pushed v w → Pushed u w
  Pushed-trans u v w p q = record {
    grows = Grows-trans u.incoming v.incoming w.incoming p.grows q.grows;
    queued = λ i m. q.queued i (p.queued i m);
    marked = λ i. both i (p.marked i) (q.marked i);
  }
    where
      both :
          (i : ℕ)
          → (get_elem? v.incoming i ≡ get_elem? u.incoming i) ⊎ Memᴰ i v.queue
          → (get_elem? w.incoming i ≡ get_elem? v.incoming i) ⊎ Memᴰ i w.queue
          → (get_elem? w.incoming i ≡ get_elem? u.incoming i) ⊎ Memᴰ i w.queue
      both i (inl a) (inl b) = inl (b ∙ a)
      both i (inr a) (inl b) = inr (q.queued i a)
      both i a (inr b) = inr b

  store_lem :
      (out : S) (j : ℕ) (w : Work S) (old : Cell S)
      → get_elem? w.incoming j ≡ some old
      → Pushed w (store f out j w old) × Covers (store f out j w old).incoming j out
  store_lem out j w old at_j = elim (Bool-cases (changes f old (merge f old out))) [
    | inl new ↦ rw new (
      record {
        grows = Grows-set w.incoming j old out at_j;
        queued = λ i m. Memᴰ.append_left (j ∷ []) m;
        marked = λ i. elim (ℕ_discrete j i) [
          | yes same ↦ inr (Memᴰ.append_right w.queue (Memᴰ.head (sym same)))
          | no other ↦ inl (get_elem?-set_ne w.incoming j i (some (merge f old out)) other)
        ];
      },
      (
        merge f old out,
        get_elem?-set_self w.incoming j (some (merge f old out)) old at_j,
        merge_right old out,
      ),
    )
    | inr kept ↦ rw kept (Pushed-refl w, stays old at_j kept)
  ]
    where
      stays :
          (o : Cell S)
          → get_elem? w.incoming j ≡ some o
          → changes f o (merge f o out) ≡ false
          → Covers w.incoming j out
      stays none h k = unfold changes in cc
      stays (some o) h k =
          let e : f.join o out ≡ o =
            unfold changes merge in sym ((law.same_iff o (f.join o out)).0 (ground arith)) in
          (o, h, e)

  offer_lem :
      (out : S) (j : ℕ) (w w' : Work S)
      → offer f out j w ≡ some w'
      → Pushed w w' × Covers w'.incoming j out
  unfolding offer
  offer_lem out j w w' h = found (get_elem? w.incoming j) refl h
    where
      found :
          (c : Option (Cell S))
          → get_elem? w.incoming j ≡ c
          → elim c [ none ↦ none | some old ↦ some (store f out j w old) ] ≡ some w'
          → Pushed w w' × Covers w'.incoming j out
      found none at_j e = cc
      found (some old) at_j e =
          let same : store f out j w old ≡ w' = cc in rw same at (store_lem out j w old at_j)

  -- Every row that a state is pushed into comes to cover it.
  pub offer_all_lem :
      (out : S) (js : List ℕ) (w w' : Work S)
      → offer_all f out js w ≡ some w'
      → Pushed w w' × ((j : ℕ) → Memᴰ j js → Covers w'.incoming j out)
  unfolding offer_all
  offer_all_lem out [] w w' h =
      let same : w ≡ w' = cc in rw (← same) (Pushed-refl w, λ j m. absurd (Memᴰ.not-nil m))
  offer_all_lem out (j ∷ js) w w' h = first (offer f out j w) (offer_all_lem out js) refl h
    where
      first :
          (o : Option (Work S))
          → ((v w' : Work S)
              → offer_all f out js v ≡ some w'
              → Pushed v w' × ((k : ℕ) → Memᴰ k js → Covers w'.incoming k out))
          → offer f out j w ≡ o
          → then_offer f o (offer_all f out js) ≡ some w'
          → Pushed w w' × ((k : ℕ) → Memᴰ k (j ∷ js) → Covers w'.incoming k out)
      first none later e h = cc
      first (some v) later e h =
          let (p, here) = offer_lem out j w v e in
          let (q, there) = later v w' h in
          (
            Pushed-trans w v w' p q,
            λ k m. elim (Memᴰ.cases_cons m) [
              | inl same ↦ rw same (Covers-Grows v.incoming w'.incoming j out q.grows here)
              | inr m' ↦ there k m'
            ],
          )
