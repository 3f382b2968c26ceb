-- ===== src/Mapping/State/Pairing.antt =====
-- The mapping state of a valid map is whole, and partners point at each other.
use sc_adat_appliance.Base.{
  ℕ, ◌+◌, ◌-◌, ◌≤◌, ◌<◌, zero, suc, ◌≡◌, ◌⊎◌, refl, ap, ◌∙◌, true, some, List, [], ◌∷◌, arith,
  get_elem?, inl, inr,
}
use sc_adat_appliance.Base.Text.{Text}
use sc_adat_appliance.Base.Result.{ok}
use sc_adat_appliance.SourceMap.{Mode, Source, member}
use sc_adat_appliance.SourceMap.Sound.{IsMap, IsSource}
use sc_adat_appliance.Mapping.{first_with, own_partner_of}
use sc_adat_appliance.Mapping.State.{
  Row, group_index, mode_value, orientation_of, row_of, rows_from, mapping_state,
}
use sc_adat_appliance.Mapping.State.Found.{
  first_with-IsSource, first_with-same, first_with-found, group_index-found, other_of,
  member-IsInput,
}

-- The row of an input, over its source and the number of its group.
abbrev row : ℕ → Source → ℕ → Row
row p s g = record {
  group = g;
  partner = own_partner_of p s.mode s.inputs;
  mode = mode_value s.mode;
  orientation = orientation_of p s.mode s.inputs;
}

-- The rows of a valid map are there, each for its input.
rows_from-ok :
    (groups : List Text) (sources : List Source) (rounds p : ℕ)
    → ((k : ℕ)
        → p ≤ k
        → k < p + rounds
        → (r : Row) × (row_of groups k (first_with k sources) ≡ ok r))
    → (rows : List Row) × (rows_from groups sources rounds p ≡ ok rows)
      × ((i : ℕ)
          → i < rounds
          → (r : Row) × (get_elem? rows i ≡ some r)
            × (row_of groups (p + i) (first_with (p + i) sources) ≡ ok r))
unfolding rows_from get_elem?
rows_from-ok groups sources zero p each = ([], refl, λ i lt. absurd (omega (arith, lt)))
rows_from-ok groups sources (suc rounds) p each =
    let (r, e) = each p (omega arith) (omega arith) in
    let (rows, all, later) =
      rows_from-ok groups sources rounds (suc p)
        (λ k lo hi. each k (omega (arith, lo)) (omega (arith, hi))) in
    (r ∷ rows, rw (e, all) refl, at r rows e later)
  where
    at :
        (r : Row) (rows : List Row)
        → row_of groups p (first_with p sources) ≡ ok r
        → ((i : ℕ)
            → i < rounds
            → (o : Row) × (get_elem? rows i ≡ some o)
              × (row_of groups (suc p + i) (first_with (suc p + i) sources) ≡ ok o))
        → (i : ℕ) → i < suc rounds
        → (o : Row) × (get_elem? (r ∷ rows) i ≡ some o)
          × (row_of groups (p + i) (first_with (p + i) sources) ≡ ok o)
    at r rows e later zero lt = let start : p + 0 ≡ p = omega arith in (r, refl, rw start e)
    at r rows e later (suc i) lt =
        let next : p + suc i ≡ suc p + i = omega arith in rw next (later i (omega (arith, lt)))

-- An input without a partner, or one whose partner points back, with the same group and the other
-- side.
abbrev pub IsPaired : List Row → ℕ → Row → Type 0
IsPaired rows p r =
    ((r.partner ≡ 0) × (r.mode ≡ 0) × (r.orientation ≡ 0))
    ⊎ ((o : Row) × (get_elem? rows (r.partner - 1) ≡ some o)
        × (o.partner ≡ p)
        × (o.group ≡ r.group)
        × (r.orientation + o.orientation ≡ 3))

module _ (groups : List Text) (sources : List Source) (valid : IsMap groups sources) where
  -- Each input has its source, whose group is known.
  at_home :
      (k : ℕ)
      → 1 ≤ k
      → k ≤ 16
      → (s : Source) × (g : ℕ) × (first_with k sources ≡ some s)
        × (group_index s.group groups ≡ some g)
  at_home k lo hi =
      let (s, f) = first_with-found k sources (omega (arith, valid.once k lo hi)) in
      let (inside, fine) = first_with-IsSource groups k sources s valid.wellformed f in
      let (g, known) = group_index-found s.group groups fine.group_known in (s, g, f, known)

  row_found :
      (k : ℕ) (s : Source) (g : ℕ)
      → first_with k sources ≡ some s
      → group_index s.group groups ≡ some g
      → row_of groups k (first_with k sources) ≡ ok (row k s g)
  row_found k s g f known = rw (f, known) refl

  all_rows :
      (rows : List Row) × (mapping_state groups sources ≡ ok rows)
      × ((i : ℕ)
          → i < 16
          → (r : Row) × (get_elem? rows i ≡ some r)
            × (row_of groups (1 + i) (first_with (1 + i) sources) ≡ ok r))
  unfolding mapping_state
  all_rows = rows_from-ok groups sources 16 1 (λ k lo hi.
      let (s, g, f, known) = at_home k lo (omega (arith, hi)) in
      (row k s g, row_found k s g f known))

  rows : List Row
  rows = all_rows.0

  -- The row at an input's place is that of its source.
  row_at :
      (k : ℕ) (s : Source) (g : ℕ)
      → 1 ≤ k
      → k ≤ 16
      → first_with k sources ≡ some s
      → group_index s.group groups ≡ some g
      → get_elem? rows (k - 1) ≡ some (row k s g)
  unfolding rows
  row_at k s g lo hi f known =
      let (r, here, e) = all_rows.2 (k - 1) (omega (arith, lo, hi)) in
      let place : 1 + (k - 1) ≡ k = omega (arith, lo) in
      let same_row : r ≡ row k s g = ground (arith, rw place at e, row_found k s g f known) in
      here ∙ ap some same_row

  stereo-IsPaired :
      (p : ℕ) (s : Source) (g : ℕ)
      → 1 ≤ p
      → p ≤ 16
      → IsSource groups s
      → first_with p sources ≡ some s
      → group_index s.group groups ≡ some g
      → member p s.inputs ≡ true
      → s.mode ≡ Mode.stereo
      → IsPaired rows p (row p s g)
  stereo-IsPaired p s g lo hi fine f known inside is_stereo =
      let (q, is_q, q_inside, back, sides) =
        other_of p s.mode s.inputs is_stereo fine.arity inside fine.distinct in
      let range = member-IsInput q s.inputs fine.in_range q_inside in
      let q_home : first_with q sources ≡ some s =
        first_with-same q p sources s f q_inside (omega (arith, valid.once q range.0 range.1)) in
      inr (row q s g, rw is_q (row_at q s g range.0 range.1 q_home known), back, refl, sides)

  mono_alone :
      (p : ℕ) (s : Source) (g : ℕ) (m : Mode)
      → m ≡ Mode.mono
      → (own_partner_of p m s.inputs ≡ 0) × (mode_value m ≡ 0) × (orientation_of p m s.inputs ≡ 0)
  mono_alone p s g Mode.mono e = (refl, refl, refl)
  mono_alone p s g Mode.stereo e = cc

  -- The mapping state of a valid map is whole, and the row of each input 1..16 shows it as mono
  -- without a partner, or names a partner whose own row points back, in the same group and with
  -- the other orientation.
  pub mapping_state-IsPaired :
      (p : ℕ)
      → 1 ≤ p
      → p ≤ 16
      → (all : List Row) × (mapping_state groups sources ≡ ok all)
        × ((r : Row) × (get_elem? all (p - 1) ≡ some r) × IsPaired all p r)
  unfolding rows
  mapping_state-IsPaired p lo hi =
      let (s, g, f, known) = at_home p lo hi in
      let (inside, fine) = first_with-IsSource groups p sources s valid.wellformed f in
      (
        rows,
        all_rows.1,
        (row p s g, row_at p s g lo hi f known, go s g fine f known inside s.mode refl),
      )
    where
      go :
          (s : Source) (g : ℕ)
          → IsSource groups s
          → first_with p sources ≡ some s
          → group_index s.group groups ≡ some g
          → member p s.inputs ≡ true
          → (m : Mode) → s.mode ≡ m
          → IsPaired rows p (row p s g)
      go s g fine f known inside Mode.mono e = inl (mono_alone p s g s.mode e)
      go s g fine f known inside Mode.stereo e = stereo-IsPaired p s g lo hi fine f known inside e
