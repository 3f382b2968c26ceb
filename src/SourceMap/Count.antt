-- ===== src/SourceMap/Count.antt =====
-- Counting: sixteen numbers that cover 1..16 hold each of them exactly once.
use sc_adat_appliance.Base.{
  ℕ, ◌+◌, ◌≤◌, ◌<◌, zero, suc, ◌≡◌, refl, true, inl, inr, List, [], ◌∷◌, ◌++◌, arith, length,
  length-append, ◌==◌, if◌then◌else◌, Bool-cases,
}
use sc_adat_appliance.SourceMap.{member, count, uncovered, covers}

pub member-count : (n : ℕ) (ns : List ℕ) → member n ns ≡ true → 1 ≤ count n ns
unfolding member count
member-count n [] h = cc
member-count n (m ∷ ms) h = ground (arith, member-count n ms)

pub count-member : (n : ℕ) (ns : List ℕ) → 1 ≤ count n ns → member n ns ≡ true
unfolding member count
count-member n [] h = absurd (omega arith)
count-member n (m ∷ ms) h = ground (arith, count-member n ms)

pub count-append : (n : ℕ) (xs ys : List ℕ) → count n (xs ++ ys) ≡ count n xs + count n ys
unfolding count
count-append n [] ys = omega arith
count-append n (x ∷ xs) ys = ground (arith, count-append n xs ys)

-- Nothing of 1..n is uncovered exactly if each is counted.
pub covered :
    (n : ℕ) (ns : List ℕ) → length (uncovered n ns) ≡ 0 → (k : ℕ) → 1 ≤ k → k ≤ n → 1 ≤ count k ns
unfolding uncovered
covered zero ns h k lo hi = absurd (omega arith)
covered (suc n) ns h k lo hi =
    let parts = length-append (uncovered n ns) (if member (suc n) ns then [] else suc n ∷ []) in
    elim (Bool-cases (k == suc n)) [
      | inl top ↦
          let e : k ≡ suc n = ground arith in rw e (member-count (suc n) ns (ground (arith, parts)))
      | inr below ↦ covered n ns (omega (arith, parts)) k lo (ground arith)
    ]

pub uncovered_none :
    (n : ℕ) (ns : List ℕ) → ((k : ℕ) → 1 ≤ k → k ≤ n → 1 ≤ count k ns) → uncovered n ns ≡ []
unfolding uncovered
uncovered_none zero ns h = refl
uncovered_none (suc n) ns h =
    rw
      (
        uncovered_none n ns (λ k lo hi. h k lo (omega arith)),
        count-member (suc n) ns (h (suc n) (omega arith) (omega arith)),
      )
      refl

-- How many members lie in 1..n.
total : ℕ → List ℕ → ℕ
total zero ns = 0
total (suc n) ns = total n ns + count (suc n) ns

total-nil : (n : ℕ) → total n [] ≡ 0
unfolding total count
total-nil zero = refl
total-nil (suc n) = omega (arith, total-nil n)

-- One more member adds one at most: nothing below it, and one from it on.
total-cons :
    (n m : ℕ) (ms : List ℕ)
    → (n < m → total n (m ∷ ms) ≡ total n ms) × (total n (m ∷ ms) ≤ total n ms + 1)
unfolding total count
total-cons zero m ms = (λ _. refl, omega arith)
total-cons (suc n) m ms = let ih = total-cons n m ms in ground (arith, ih)

total-le-length : (n : ℕ) (ns : List ℕ) → total n ns ≤ length ns
total-le-length n [] = omega (arith, total-nil n)
total-le-length n (m ∷ ms) = omega (arith, (total-cons n m ms).1, total-le-length n ms)

total_ge : (n : ℕ) (ns : List ℕ) → ((k : ℕ) → 1 ≤ k → k ≤ n → 1 ≤ count k ns) → n ≤ total n ns
unfolding total
total_ge zero ns h = omega arith
total_ge (suc n) ns h =
    omega (
      arith,
      total_ge n ns (λ k lo hi. h k lo (omega arith)),
      h (suc n) (omega arith) (omega arith),
    )

-- Where the total is as small as it can be, each number is counted once.
total_tight :
    (n : ℕ) (ns : List ℕ)
    → ((k : ℕ) → 1 ≤ k → k ≤ n → 1 ≤ count k ns)
    → total n ns ≤ n
    → (k : ℕ) → 1 ≤ k
    → k ≤ n
    → count k ns ≡ 1
unfolding total
total_tight zero ns h t k lo hi = absurd (omega arith)
total_tight (suc n) ns h t k lo hi =
    let below = total_ge n ns (λ j l u. h j l (omega arith)) in
    let top = h (suc n) (omega arith) (omega arith) in
    elim (Bool-cases (k == suc n)) [
      | inl e ↦ let e' : k ≡ suc n = ground arith in rw e' (omega (arith, below, top))
      | inr e ↦
          total_tight n ns (λ j l u. h j l (omega arith)) (omega (arith, below, top)) k lo
            (ground arith)
    ]

pub covers-once :
    (ns : List ℕ) → covers ns ≡ true → length ns ≡ 16 → (k : ℕ) → 1 ≤ k → k ≤ 16 → count k ns ≡ 1
unfolding covers
covers-once ns h e =
    total_tight 16 ns (covered 16 ns (ground arith)) (omega (arith, total-le-length 16 ns))
