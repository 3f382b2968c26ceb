-- ===== src/Listing/Control/Range.antt =====
-- Successors and roots are rows of the listing, where every label stands at a row.
use mathlib.Core.List.{Memᴰ}
use mathlib.Core.List.Memᴰ
use sc_adat_appliance.Base.{
  ℕ, suc, ◌<◌, refl, inl, inr, not, ◌&&◌, Option, none, some, List, [], ◌∷◌, ltb, Bool-cases,
  if_both, length, get_elem?, All, arith,
}
use sc_adat_appliance.Base.Text.{Text, contains}
use sc_adat_appliance.Base.Bytes.{same}
use sc_adat_appliance.Listing.{Row, Names, named}
use sc_adat_appliance.Listing.Opcodes.{is_in}
use sc_adat_appliance.Listing.Control.{
  Kind, returns, jumps, branches, falls, kind_of, by_kind, branch_target, lowered, label_of,
  target_only, target_and, following, successors_of, row_successors, successors, branch_refs,
  add_root, label_roots, roots,
}

-- Each label stands at one of the first `n` rows.
abbrev pub Placed : ℕ → Names → Type 0
Placed n = All (λ entry. entry.1 < n)

-- Every index of the list is below `n`.
abbrev pub Below : ℕ → List ℕ → Type 0
Below n = All (λ i. i < n)

abbrev Reached : ℕ → Option ℕ → Type 0
Reached n none = Unit {0}
Reached n (some j) = j < n

pub Below-mem : (n : ℕ) (js : List ℕ) → Below n js → (j : ℕ) → Memᴰ j js → j < n
Below-mem n [] h j m = absurd (Memᴰ.not-nil m)
Below-mem n (k ∷ ks) h j m = elim (Memᴰ.cases_cons m) [
  | inl same ↦ rw same h.0
  | inr later ↦ Below-mem n ks h.1 j later
]

named-Reached : (n : ℕ) (t : Text) (labels : Names) → Placed n labels → Reached n (named t labels)
unfolding named
named-Reached n t [] h = tt
named-Reached n t ((s, i) ∷ rest) h =
    if_both (Reached n) (same s t) (some i) (named t rest) h.0 (named-Reached n t rest h.1)

label_of-Reached :
    (n : ℕ) (labels : Names) (t : Option Text) → Placed n labels → Reached n (label_of labels t)
label_of-Reached n labels none h = tt
label_of-Reached n labels (some t) h = named-Reached n t labels h

target_and-Below :
    (n : ℕ) (t : Option ℕ) (js : List ℕ) → Reached n t → Below n js → Below n (target_and t js)
target_and-Below n none js h k = k
target_and-Below n (some j) js h k = (h, k)

target_only-Below : (n : ℕ) (t : Option ℕ) → Reached n t → Below n (target_only t)
target_only-Below n none h = tt
target_only-Below n (some j) h = (h, tt)

following-Below : (n i : ℕ) → Below n (following n i)
unfolding following
following-Below n i = elim (Bool-cases (ltb (suc i) n)) [
  | inl fits ↦ rw fits (ground arith, tt)
  | inr last ↦ rw last tt
]

by_kind-Below :
    (n : ℕ) (k : Kind) (target : Option ℕ) (next : List ℕ)
    → Reached n target
    → Below n next
    → Below n (by_kind k target next)
by_kind-Below n returns target next h k = tt
by_kind-Below n jumps target next h k = target_only-Below n target h
by_kind-Below n branches target next h k = target_and-Below n target next h k
by_kind-Below n falls target next h k = k

successors_of-Below :
    (n : ℕ) (labels : Names) (i : ℕ) (text : Text)
    → Placed n labels
    → Below n (successors_of n labels i text)
unfolding successors_of
successors_of-Below n labels i text h =
    by_kind-Below n (kind_of (lowered text)) (label_of labels (branch_target text)) (following n i)
      (label_of-Reached n labels (branch_target text) h) (following-Below n i)

pub successors-Below :
    (rows : List Row) (labels : Names) (i : ℕ)
    → Placed (length rows) labels
    → Below (length rows) (successors rows labels i)
unfolding successors
successors-Below rows labels i h = go (get_elem? rows i)
  where
    go : (r : Option Row) → Below (length rows) (row_successors (length rows) labels i r)
    go none = tt
    go (some row) = successors_of-Below (length rows) labels i row.text h

label_roots-Below :
    (n : ℕ) (refs : List Text) (labels : Names) → 0 < n → Below n (label_roots n refs labels)
unfolding label_roots
label_roots-Below n refs [] h = (h, tt)
label_roots-Below n refs ((name, i) ∷ labels) h =
    let found = label_roots n refs labels in
    let below = label_roots-Below n refs labels h in
    elim (Bool-cases (ltb i n)) [
      | inl fits ↦
          if_both (Below n) (ltb i n && not (contains refs name)) (add_root i found) found
            (if_both (Below n) (is_in i found) found (i ∷ found) below (ground arith, below)) below
      | inr beyond ↦ rw beyond below
    ]

pub roots-Below :
    (rows : List Row) (labels : Names) → 0 < length rows → Below (length rows) (roots rows labels)
unfolding roots
roots-Below rows labels h = label_roots-Below (length rows) (branch_refs rows) labels h

-- Row 0 is a root.
label_roots-zero : (n : ℕ) (refs : List Text) (labels : Names) → Memᴰ 0 (label_roots n refs labels)
unfolding label_roots
label_roots-zero n refs [] = Memᴰ.head refl
label_roots-zero n refs ((name, i) ∷ labels) =
    let found = label_roots n refs labels in
    let first = label_roots-zero n refs labels in
    if_both (Memᴰ 0) (ltb i n && not (contains refs name)) (add_root i found) found
      (if_both (Memᴰ 0) (is_in i found) found (i ∷ found) first (Memᴰ.tail first)) first

pub roots-zero : (rows : List Row) (labels : Names) → Memᴰ 0 (roots rows labels)
unfolding roots
roots-zero rows labels = label_roots-zero (length rows) (branch_refs rows) labels
