-- ===== src/Mapping/Cover.antt =====
-- What an edit proposes, and that what is accepted is a map.
use sc_adat_appliance.Base.{
  ℕ, ◌+◌, ◌≤◌, ◌≡◌, ◌≢◌, ◌∙◌, sym, refl, ap, true, Option, List, [], ◌∷◌, ◌++◌, arith, ltb, ◌==◌,
  if◌then◌else◌, Bool-cases, append_assoc, inl, inr,
}
use sc_adat_appliance.Base.Text.{Text}
use sc_adat_appliance.Base.Int.{ℤ, pos, negsuc}
use sc_adat_appliance.Base.Result.{Result, ok, err}
use sc_adat_appliance.Base.Sealed.{bind-eq-ok, guard-eq-ok}
use sc_adat_appliance.SourceMap
use sc_adat_appliance.SourceMap.{
  Source, Mode, member, count, used, snapshots, validate_source_map, Checked,
}
use sc_adat_appliance.SourceMap.Count.{count-append}
use sc_adat_appliance.SourceMap.Sound.{IsMap, validate_source_map-IsMap}
use sc_adat_appliance.Mapping.{
  EditError, stays, split, remaining, insert, sorted, head_or_0, unpair, pair, checked_partner,
  runtime_source_entries, propose_mapping, as_edit,
}

-- An edit that is accepted gives a valid map over the groups.
pub propose_mapping-IsMap :
    (groups : List Text) (version : Text) (sources : List Source) (physical : ℕ)
    (partner : Option ℤ) (group : Option Text) (proposed : List Source)
    → propose_mapping groups version sources physical partner group ≡ ok proposed
    → IsMap groups proposed
unfolding propose_mapping
propose_mapping-IsMap groups version sources physical partner group proposed h =
    let (s, _, h1) = bind-eq-ok _ _ h in
    let (entries, _, h2) = bind-eq-ok _ _ h1 in
    validate_source_map-IsMap (SourceMap.Entries.list (snapshots entries)) groups version proposed
      (as_edit-eq-ok _ h2)
  where
    as_edit-eq-ok : (c : Checked (List Source)) → as_edit c ≡ ok proposed → c ≡ ok proposed
    as_edit-eq-ok (ok a) e = ap ok (ground (arith, e))
    as_edit-eq-ok (err e') e = cc

abbrev accepted : List Source → Result EditError (List Source)
accepted es = ok es

ok-injective : {a b : List Source} → accepted a ≡ accepted b → a ≡ b
ok-injective h = ground (arith, h)

used-append : (xs ys : List Source) → used (xs ++ ys) ≡ used xs ++ used ys
unfolding used
used-append [] ys = refl
used-append (x ∷ xs) ys =
    ap (λ ns. x.inputs ++ ns) (used-append xs ys) ∙ sym (append_assoc x.inputs (used xs) (used ys))

count-used-cons :
    (k : ℕ) (s : Source) (ss : List Source)
    → count k (used (s ∷ ss)) ≡ count k s.inputs + count k (used ss)
unfolding used
count-used-cons k s ss = count-append k s.inputs (used ss)

count-used-append :
    (k : ℕ) (xs ys : List Source)
    → count k (used (xs ++ ys)) ≡ count k (used xs) + count k (used ys)
count-used-append k xs ys = ap (count k) (used-append xs ys) ∙ count-append k (used xs) (used ys)

inputs-stays :
    (m : Mode) (sources : List Source) (s : Source) (n : ℕ) → (stays m sources s n).inputs ≡ n ∷ []
inputs-stays Mode.mono sources s n = refl
inputs-stays Mode.stereo sources s n = refl

count-one : (k n : ℕ) → count k (n ∷ []) ≡ (if k == n then 1 else 0)
unfolding count
count-one k n = ground arith

member-eq : (k n : ℕ) (ns : List ℕ) → (k == n) ≡ true → member n ns ≡ member k ns
member-eq k n ns h = let e : k ≡ n = ground (arith, h) in rw e refl

count-split :
    (k : ℕ) (affected : List ℕ) (sources : List Source) (s : Source) (ns : List ℕ)
    → count k (used (split affected sources s ns)) ≡ (if member k affected then 0 else count k ns)
unfolding split
count-split k affected sources s [] = unfold used count in ground arith
count-split k affected sources s (n ∷ ns) =
    let ih = count-split k affected sources s ns in
    let whole = count-append k (n ∷ []) ns in
    let one = count-one k n in
    let same_member = member-eq k n affected in
    elim (Bool-cases (member n affected)) [
      | inl e ↦ rw e (ground (arith, ih, whole, one, same_member, e))
      | inr e ↦
          rw
            (
              e,
              count-used-cons k (stays s.mode sources s n) (split affected sources s ns),
              inputs-stays s.mode sources s n,
            )
            (ground (arith, ih, whole, one, same_member, e))
    ]

count-remaining :
    (k : ℕ) (affected : List ℕ) (sources ss : List Source)
    → count k (used (remaining affected sources ss))
      ≡ (if member k affected then 0 else count k (used ss))
unfolding remaining
count-remaining k affected sources [] = unfold used count in ground arith
count-remaining k affected sources (s ∷ ss) =
    let whole =
      count-used-append k (split affected sources s s.inputs) (remaining affected sources ss) in
    ground (
      arith,
      whole,
      count-split k affected sources s s.inputs,
      count-remaining k affected sources ss,
      count-used-cons k s ss,
    )

count-insert :
    (k : ℕ) (e : Source) (es : List Source) → count k (used (insert e es)) ≡ count k (used (e ∷ es))
unfolding insert
count-insert k e [] = refl
count-insert k e (f ∷ fs) = elim (Bool-cases (ltb (head_or_0 f.inputs) (head_or_0 e.inputs))) [
  | inr h ↦ rw h refl
  | inl h ↦ rw h (
      omega (
        arith,
        count-insert k e fs,
        count-used-cons k f (insert e fs),
        count-used-cons k e fs,
        count-used-cons k e (f ∷ fs),
        count-used-cons k f fs,
      ))
]

count-sorted : (k : ℕ) (es : List Source) → count k (used (sorted es)) ≡ count k (used es)
unfolding sorted
count-sorted k [] = refl
count-sorted k (e ∷ es) = omega (
  arith,
  count-insert k e (sorted es),
  count-sorted k es,
  count-used-cons k e es,
  count-used-cons k e (sorted es),
)

-- Replacing the entries of some inputs by one entry that lists them.
count-replaced :
    (k : ℕ) (affected : List ℕ) (sources : List Source) (e : Source)
    → e.inputs ≡ affected
    → count k affected ≡ (if member k affected then 1 else 0)
    → count k (used sources) ≡ 1
    → count k (used (sorted (remaining affected sources sources ++ e ∷ []))) ≡ 1
count-replaced k affected sources e lists once_in once =
    let empty : count k (used []) ≡ 0 = unfold used count in refl in
    let parts = count-used-append k (remaining affected sources sources) (e ∷ []) in
    let rest = count-remaining k affected sources sources in
    let listed : count k e.inputs ≡ count k affected = ap (count k) lists in
    ground (
      arith,
      count-sorted k (remaining affected sources sources ++ e ∷ []),
      parts,
      rest,
      count-used-cons k e [],
      empty,
      listed,
      once_in,
      once,
    )

one_member : (k p : ℕ) → count k (p ∷ []) ≡ (if member k (p ∷ []) then 1 else 0)
unfolding count member
one_member k p = ground arith

two_members : (k p q : ℕ) → q ≢ p → count k (p ∷ q ∷ []) ≡ (if member k (p ∷ q ∷ []) then 1 else 0)
unfolding count member
two_members k p q h = ground (arith, h)

count-unpair :
    (k : ℕ) (sources : List Source) (p : ℕ) (group : Option Text) (es : List Source)
    → count k (used sources) ≡ 1
    → unpair sources p group ≡ ok es
    → count k (used es) ≡ 1
unfolding unpair
count-unpair k sources p group es once h =
    let (s, _, h1) = bind-eq-ok _ _ h in
    let is_es = ok-injective h1 in
    rw (← is_es) (count-replaced k (p ∷ []) sources _ refl (one_member k p) once)

count-pair :
    (k : ℕ) (sources : List Source) (p q : ℕ) (group : Option Text) (es : List Source)
    → q ≢ p
    → count k (used sources) ≡ 1
    → pair sources p q group ≡ ok es
    → count k (used es) ≡ 1
unfolding pair
count-pair k sources p q group es apart once h =
    let (right, _, h1) = bind-eq-ok _ _ h in
    let (_, h2) = guard-eq-ok _ _ _ h1 in
    let (left, _, h3) = bind-eq-ok _ _ h2 in
    let is_es = ok-injective h3 in
    rw (← is_es) (count-replaced k (p ∷ q ∷ []) sources _ refl (two_members k p q apart) once)

checked_partner-apart : (p : ℕ) (z : ℤ) (q : ℕ) → checked_partner p z ≡ ok q → q ≢ p
unfolding checked_partner
checked_partner-apart p (negsuc n) q h = cc
checked_partner-apart p (pos n) q h = ground (arith, h)

-- The entries of an edit on a valid map hold each physical input 1..16 exactly once, whatever the
-- input, the partner and the group.
pub runtime_source_entries-once :
    (groups : List Text) (sources : List Source) (physical : ℕ) (partner : ℤ) (group : Option Text)
    (entries : List Source) (k : ℕ)
    → IsMap groups sources
    → runtime_source_entries sources physical partner group ≡ ok entries
    → 1 ≤ k
    → k ≤ 16
    → count k (used entries) ≡ 1
unfolding runtime_source_entries
runtime_source_entries-once groups sources physical partner group entries k valid h lo hi =
    let (_, h1) = guard-eq-ok _ _ _ h in
    let (q, e, h2) = bind-eq-ok _ _ h1 in
    let once = valid.once k lo hi in
    elim (Bool-cases (q == 0)) [
      | inl none_named ↦ count-unpair k sources physical group entries once (rw none_named at h2)
      | inr named ↦
          count-pair k sources physical q group entries (checked_partner-apart physical partner q e)
            once (rw named at h2)
    ]
