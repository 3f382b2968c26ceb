-- ===== src/Mapping/State/Found.antt =====
-- What `mapping_state` of mixer/mixerctl.py finds for an input: its source, its group, its partner.
use sc_adat_appliance.Base.{
  ℕ, ◌+◌, ◌≤◌, suc, ◌≡◌, refl, ap, subst, true, false, some, List, [], ◌∷◌, arith, length, ◌==◌,
  All, Bool-cases, inl, inr,
}
use sc_adat_appliance.Base.Bytes.{same}
use sc_adat_appliance.Base.Text.{Text, contains}
use sc_adat_appliance.SourceMap.{Mode, Source, member, count, used, unique, expected}
use sc_adat_appliance.SourceMap.Sound.{IsSource, IsInput}
use sc_adat_appliance.SourceMap.Count.{member-count, count-append}
use sc_adat_appliance.Mapping.{first_with, own_partner_of}
use sc_adat_appliance.Mapping.State.{group_index, orientation_of}

-- The source that is found holds the input and is well formed.
pub first_with-IsSource :
    (groups : List Text) (q : ℕ) (ss : List Source) (s : Source)
    → All (IsSource groups) ss
    → first_with q ss ≡ some s
    → (member q s.inputs ≡ true) × IsSource groups s
unfolding first_with
first_with-IsSource groups q [] s valid h = cc
first_with-IsSource groups q (t ∷ ss) s valid h = elim (Bool-cases (member q t.inputs)) [
  | inl e ↦
      let here : t ≡ s = ground (arith, rw e at h) in
      subst (λ (u : Source). (member q u.inputs ≡ true) × IsSource groups u) here (e, valid.0)
  | inr e ↦ first_with-IsSource groups q ss s valid.1 (rw e at h)
]

pub first_with-count :
    (p q : ℕ) (ss : List Source) (s : Source)
    → first_with q ss ≡ some s
    → member p s.inputs ≡ true
    → 1 ≤ count p (used ss)
unfolding first_with used
first_with-count p q [] s h m = cc
first_with-count p q (t ∷ ss) s h m = elim (Bool-cases (member q t.inputs)) [
  | inl e ↦
      let here : t ≡ s = ground (arith, rw e at h) in
      let inside = member-count p t.inputs (rw here m) in
      omega (arith, inside, count-append p t.inputs (used ss))
  | inr e ↦
      omega (arith, first_with-count p q ss s (rw e at h) m, count-append p t.inputs (used ss))
]

-- With each input in one place, all inputs of a source find it.
pub first_with-same :
    (p q : ℕ) (ss : List Source) (s : Source)
    → first_with q ss ≡ some s
    → member p s.inputs ≡ true
    → count p (used ss) ≤ 1
    → first_with p ss ≡ some s
unfolding first_with used
first_with-same p q [] s h m once = cc
first_with-same p q (t ∷ ss) s h m once = elim (Bool-cases (member q t.inputs)) [
  | inl e ↦
      let here : t ≡ s = ground (arith, rw e at h) in
      let inside : member p t.inputs ≡ true = rw here m in rw inside (ap some here)
  | inr e ↦ elim (Bool-cases (member p t.inputs)) [
    | inl f ↦ absurd (
        omega (
          arith,
          once,
          count-append p t.inputs (used ss),
          member-count p t.inputs f,
          first_with-count p q ss s (rw e at h) m,
        ))
    | inr f ↦ rw f (
        first_with-same p q ss s (rw e at h) m
          (omega (arith, once, count-append p t.inputs (used ss))))
  ]
]

absent-count : (p : ℕ) (ns : List ℕ) → member p ns ≡ false → count p ns ≡ 0
unfolding member count
absent-count p [] h = refl
absent-count p (n ∷ ns) h = ground (arith, h, absent-count p ns (ground (arith, h)))

pub first_with-found :
    (p : ℕ) (ss : List Source) → 1 ≤ count p (used ss) → (s : Source) × (first_with p ss ≡ some s)
unfolding first_with used
first_with-found p [] h = unfold count in absurd (omega (arith, h))
first_with-found p (t ∷ ss) h = elim (Bool-cases (member p t.inputs)) [
  | inl e ↦ (t, rw e refl)
  | inr e ↦
      let away : count p t.inputs ≡ 0 = absent-count p t.inputs e in
      let (s, f) =
        first_with-found p ss (omega (arith, h, away, count-append p t.inputs (used ss))) in
      (s, rw e f)
]

pub group_index-found :
    (t : Text) (gs : List Text) → contains gs t ≡ true → (n : ℕ) × (group_index t gs ≡ some n)
unfolding contains group_index
group_index-found t [] h = cc
group_index-found t (g ∷ gs) h = elim (Bool-cases (same g t)) [
  | inl e ↦ (0, rw e refl)
  | inr e ↦ let (n, f) = group_index-found t gs (rw e at h) in (suc n, rw (e, f) refl)
]

-- The partner is the other input, on the other side.
other_input :
    (p l r : ℕ)
    → member p (l ∷ r ∷ []) ≡ true
    → unique (l ∷ r ∷ []) ≡ true
    → (q : ℕ) × (own_partner_of p Mode.stereo (l ∷ r ∷ []) ≡ q)
      × (member q (l ∷ r ∷ []) ≡ true)
      × (own_partner_of q Mode.stereo (l ∷ r ∷ []) ≡ p)
      × (orientation_of p Mode.stereo (l ∷ r ∷ []) + orientation_of q Mode.stereo (l ∷ r ∷ []) ≡ 3)
unfolding member unique
other_input p l r inside apart = elim (Bool-cases (p == l)) [
  | inl e ↦ (r, ground (arith, e), ground arith, ground (arith, e, apart), ground (arith, e, apart))
  | inr e ↦
      (l, ground (arith, e), ground arith, ground (arith, e, inside), ground (arith, e, inside))
]

-- The same of any inputs of a stereo source.
pub other_of :
    (p : ℕ) (m : Mode) (ns : List ℕ)
    → m ≡ Mode.stereo
    → length ns ≡ expected m
    → member p ns ≡ true
    → unique ns ≡ true
    → (q : ℕ) × (own_partner_of p m ns ≡ q)
      × (member q ns ≡ true)
      × (own_partner_of q m ns ≡ p)
      × (orientation_of p m ns + orientation_of q m ns ≡ 3)
other_of p Mode.mono ns is_stereo size inside apart = cc
other_of p Mode.stereo [] is_stereo size inside apart = absurd (omega (arith, size))
other_of p Mode.stereo (l ∷ []) is_stereo size inside apart = absurd (omega (arith, size))
other_of p Mode.stereo (l ∷ r ∷ []) is_stereo size inside apart = other_input p l r inside apart
other_of p Mode.stereo (l ∷ r ∷ n ∷ ns) is_stereo size inside apart = absurd (omega (arith, size))

pub member-IsInput : (q : ℕ) (ns : List ℕ) → All IsInput ns → member q ns ≡ true → IsInput q
unfolding member
member-IsInput q [] all h = cc
member-IsInput q (n ∷ ns) all h = elim (Bool-cases (q == n)) [
  | inl e ↦ let here : q ≡ n = ground (arith, e) in rw here (all.0)
  | inr e ↦ member-IsInput q ns all.1 (rw e at h)
]
