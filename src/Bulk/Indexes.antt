-- ===== src/Bulk/Indexes.antt =====
-- The chunks by their index: with each index below n once, there are n of them.
use sc_adat_appliance.Base.{
  ℕ, ◌<◌, zero, suc, ◌≡◌, ◌≢◌, refl, ap, ◌∙◌, true, false, some, List, [], ◌∷◌, arith, length, ◌==◌,
  All, Bool-cases, inl, inr,
}
use sc_adat_appliance.Base.Dict.{get, put, pop}
use sc_adat_appliance.Bulk.Client.{all_below, has_below, is_there}

module _ {A : Type 0} where
  -- No index twice.
  abbrev pub Single : List (ℕ × A) → Type 0
  Single [] = Unit
  Single ((k, v) ∷ rest) = All (λ p. (p.0 == k) ≡ false) rest × Single rest

  pub put-All :
      (P : ℕ × A → Type 0) (k : ℕ) (v : A) (d : List (ℕ × A))
      → P (k, v)
      → All P d
      → All P (put k v d)
  unfolding put
  put-All P k v [] new all = (new, tt)
  put-All P k v ((j, w) ∷ rest) new all = elim (Bool-cases (j == k)) [
    | inl e ↦ rw e (new, all.1)
    | inr e ↦ rw e (all.0, put-All P k v rest new all.1)
  ]

  pub put-Single : (k : ℕ) (v : A) (d : List (ℕ × A)) → Single d → Single (put k v d)
  unfolding put
  put-Single k v [] h = (tt, tt)
  put-Single k v ((j, w) ∷ rest) h = elim (Bool-cases (j == k)) [
    | inl e ↦ let same : j ≡ k = ground (arith, e) in rw e (rw (← same) (h.0), h.1)
    | inr e ↦ rw e (
      put-All (λ p. (p.0 == j) ≡ false) k v rest (ground (arith, e)) h.0,
      put-Single k v rest h.1,
    )
  ]

  pub get-put_same : (k : ℕ) (v : A) (d : List (ℕ × A)) → get k (put k v d) ≡ some v
  unfolding get put
  get-put_same k v [] = ground arith
  get-put_same k v ((j, w) ∷ rest) = elim (Bool-cases (j == k)) [
    | inl e ↦ rw e (ground arith)
    | inr e ↦ rw (e, e) (get-put_same k v rest)
  ]

  pub get-put_other : (i k : ℕ) (v : A) (d : List (ℕ × A)) → i ≢ k → get i (put k v d) ≡ get i d
  unfolding get put
  get-put_other i k v [] h = ground (arith, h)
  get-put_other i k v ((j, w) ∷ rest) h = elim (Bool-cases (j == k)) [
    | inl e ↦ rw e (ground (arith, h, e))
    | inr e ↦ rw e (elim (Bool-cases (j == i)) [
      | inl f ↦ rw f refl
      | inr f ↦ rw f (get-put_other i k v rest h)
    ])
  ]

  pub get-All :
      (P : ℕ × A → Type 0) (k : ℕ) (v : A) (d : List (ℕ × A))
      → All P d
      → get k d ≡ some v
      → P (k, v)
  unfolding get
  get-All P k v [] all h = cc
  get-All P k v ((j, w) ∷ rest) all h = elim (Bool-cases (j == k)) [
    | inl e ↦
        let same : j ≡ k = ground (arith, e) in
        let value : w ≡ v = ground (arith, rw e at h) in rw (← same, ← value) (all.0)
    | inr e ↦ get-All P k v rest all.1 (rw e at h)
  ]

  length-pop :
      (k : ℕ) (d : List (ℕ × A)) → is_there (get k d) ≡ true → length d ≡ suc (length (pop k d))
  unfolding get pop
  length-pop k [] h = cc
  length-pop k ((j, w) ∷ rest) h = elim (Bool-cases (j == k)) [
    | inl e ↦ rw e refl
    | inr e ↦ rw e (ap suc (length-pop k rest (rw e at h)))
  ]

  pop-All : (P : ℕ × A → Type 0) (k : ℕ) (d : List (ℕ × A)) → All P d → All P (pop k d)
  unfolding pop
  pop-All P k [] all = tt
  pop-All P k ((j, w) ∷ rest) all = elim (Bool-cases (j == k)) [
    | inl e ↦ rw e (all.1)
    | inr e ↦ rw e (all.0, pop-All P k rest all.1)
  ]

  pop-Single : (k : ℕ) (d : List (ℕ × A)) → Single d → Single (pop k d)
  unfolding pop
  pop-Single k [] h = tt
  pop-Single k ((j, w) ∷ rest) h = elim (Bool-cases (j == k)) [
    | inl e ↦ rw e (h.1)
    | inr e ↦ rw e (pop-All (λ p. (p.0 == j) ≡ false) k rest h.0, pop-Single k rest h.1)
  ]

  get-pop_other : (i k : ℕ) (d : List (ℕ × A)) → i ≢ k → get i (pop k d) ≡ get i d
  unfolding get pop
  get-pop_other i k [] h = refl
  get-pop_other i k ((j, w) ∷ rest) h = elim (Bool-cases (j == k)) [
    | inl e ↦ let other : (j == i) ≡ false = ground (arith, e, h) in rw (e, other) refl
    | inr e ↦
        rw e (elim (Bool-cases (j == i)) [
          | inl f ↦ rw f refl
          | inr f ↦ rw f (get-pop_other i k rest h)
        ])
  ]

  -- Without its top index, a dictionary with indexes up to n has them below n.
  all_below-pop :
      (n : ℕ) (d : List (ℕ × A))
      → Single d
      → all_below (suc n) d ≡ true
      → all_below n (pop n d) ≡ true
  unfolding all_below pop
  all_below-pop n [] one h = refl
  all_below-pop n ((j, w) ∷ rest) one h = elim (Bool-cases (j == n)) [
    | inl e ↦
        let same : j ≡ n = ground (arith, e) in
        rw e (all_below-rest rest (rw same at one.0) (ground (arith, h)))
    | inr e ↦ rw e (ground (arith, e, h, all_below-pop n rest one.1 (ground (arith, h))))
  ]
    where
      all_below-rest :
          (es : List (ℕ × A))
          → All (λ p. (p.0 == n) ≡ false) es
          → all_below (suc n) es ≡ true
          → all_below n es ≡ true
      all_below-rest [] away h = refl
      all_below-rest ((i, v) ∷ es) away h =
          ground (arith, h, away.0, all_below-rest es away.1 (ground (arith, h)))

  pub has_below-get :
      (n i : ℕ) (d : List (ℕ × A)) → has_below n d ≡ true → i < n → is_there (get i d) ≡ true
  unfolding has_below
  has_below-get zero i d h lt = absurd (omega (arith, lt))
  has_below-get (suc n) i d h lt = elim (Bool-cases (i == n)) [
    | inl e ↦ let same : i ≡ n = ground (arith, e) in rw same (ground (arith, h))
    | inr e ↦ has_below-get n i d (ground (arith, h)) (ground (arith, e, lt))
  ]

  pub get-has_below :
      (n : ℕ) (d : List (ℕ × A))
      → ((i : ℕ) → i < n → is_there (get i d) ≡ true)
      → has_below n d ≡ true
  unfolding has_below
  get-has_below zero d h = refl
  get-has_below (suc n) d h =
      ground (arith, h n (omega arith), get-has_below n d (λ i lt. h i (omega (arith, lt))))

  -- Each index below n once, and no other: n of them.
  pub length_once :
      (n : ℕ) (d : List (ℕ × A))
      → Single d
      → all_below n d ≡ true
      → ((i : ℕ) → i < n → is_there (get i d) ≡ true)
      → length d ≡ n
  length_once zero [] one below there = refl
  length_once zero ((k, v) ∷ rest) one below there = unfold all_below in ground (arith, below)
  length_once (suc n) d one below there =
      length-pop n d (there n (omega arith))
      ∙ ap suc (
          length_once n (pop n d) (pop-Single n d one) (all_below-pop n d one below) (λ i lt.
            rw (get-pop_other i n d (λ e. omega (arith, lt, e))) (there i (omega (arith, lt)))))
