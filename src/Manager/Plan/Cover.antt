-- ===== src/Manager/Plan/Cover.antt =====
-- What the track plan promises the native recorder: safe names, and every input once.
use sc_adat_appliance.Base.{
  ℕ, ◌+◌, ◌-◌, ◌≤◌, zero, suc, ◌≡◌, refl, ap, ◌∙◌, false, List, [], ◌∷◌, ◌++◌, arith, leb, length,
  All, All-append, append_assoc, sym, Bool-cases, inl, inr,
}
use sc_adat_appliance.Base.Result.{Result, ok, err}
use sc_adat_appliance.Base.Text.{Text, contains}
use sc_adat_appliance.SourceMap
use sc_adat_appliance.SourceMap.{Source, Mode, used, count, expected}
use sc_adat_appliance.SourceMap.Sound.{IsInput, IsMap, IsSource}
use sc_adat_appliance.SourceMap.Count.{count-append}
use sc_adat_appliance.Manager.Plan.{
  PlanError, Track, safe_name, first_input, track_of, and_track, source_tracks, fixed_tracks,
  with_fixed, track_plan,
}

-- The numbers from n on.
abbrev pub from : ℕ → ℕ → List ℕ
from n zero = []
from n (suc k) = n ∷ from (suc n) k

-- The physical inputs, counted from 1, that the tracks take: 17 is the sync input, and 18 and 19
-- are the master.
abbrev pub taken : List Track → List ℕ
taken [] = []
taken (t ∷ ts) = from (t.first + 1) t.channels ++ taken ts

-- The inputs of a source follow each other upwards.
abbrev pub Adjacent : Source → Type 0
Adjacent s = s.inputs ≡ from (first_input s.inputs) (length s.inputs)

taken-append : (ts us : List Track) → taken (ts ++ us) ≡ taken ts ++ taken us
taken-append [] us = refl
taken-append (t ∷ ts) us =
    ap (λ (ns : List ℕ). from (t.first + 1) t.channels ++ ns) (taken-append ts us)
    ∙ sym (append_assoc (from (t.first + 1) t.channels) (taken ts) (taken us))

expected_pos : (m : Mode) → 1 ≤ expected m
expected_pos SourceMap.mono = omega arith
expected_pos SourceMap.stereo = omega arith

first_input_pos :
    (groups : List Text) (s : Source)
    → IsSource groups s
    → first_input s.inputs - 1 + 1 ≡ first_input s.inputs
first_input_pos groups s h = go s.inputs h.in_range (omega (arith, h.arity, expected_pos s.mode))
  where
    go : (ns : List ℕ) → All IsInput ns → 1 ≤ length ns → first_input ns - 1 + 1 ≡ first_input ns
    go [] all some_input = absurd (omega (arith, some_input))
    go (n ∷ ns) all some_input = omega (arith, all.0.0)

-- The loop over the sources, where it ends well.
and_track-ok :
    (t : Track) (r : Result PlanError (List Track)) (ts : List Track)
    → and_track t r ≡ ok ts
    → (us : List Track) × (r ≡ ok us) × (ts ≡ t ∷ us)
and_track-ok t (ok us) ts h = (us, refl, ground (arith, h))
and_track-ok t (err e) ts h = cc

source_tracks-cons :
    (names : List Text) (s : Source) (ss : List Source) (ts : List Track)
    → source_tracks names (s ∷ ss) ≡ ok ts
    → (contains names (safe_name s.id) ≡ false)
      × ((us : List Track) × (source_tracks (safe_name s.id ∷ names) ss ≡ ok us)
          × (ts ≡ track_of s ∷ us))
unfolding source_tracks
source_tracks-cons names s ss ts h = elim (Bool-cases (contains names (safe_name s.id))) [
  | inl e ↦ cc (rw e at h)
  | inr e ↦ (e, and_track-ok (track_of s) _ ts (rw e at h))
]

module _ (groups : List Text) where
  source_tracks-taken :
      (names : List Text) (ss : List Source) (ts : List Track)
      → All (IsSource groups) ss
      → All Adjacent ss
      → source_tracks names ss ≡ ok ts
      → taken ts ≡ used ss
  unfolding used
  source_tracks-taken names [] ts valid adjacent h = unfold source_tracks in ground (arith, h)
  source_tracks-taken names (s ∷ ss) ts valid adjacent h =
      let (new, (us, rest, e)) = source_tracks-cons names s ss ts h in
      let later = source_tracks-taken (safe_name s.id ∷ names) ss us valid.1 adjacent.1 rest in
      rw (e, first_input_pos groups s valid.0, later, sym adjacent.0) refl

used-IsInput :
    (groups : List Text) (ss : List Source) → All (IsSource groups) ss → All IsInput (used ss)
unfolding used
used-IsInput groups [] valid = tt
used-IsInput groups (s ∷ ss) valid =
    All-append IsInput s.inputs (used ss) valid.0.in_range (used-IsInput groups ss valid.1)

count_absent : (k : ℕ) (ns : List ℕ) → 17 ≤ k → All IsInput ns → count k ns ≡ 0
unfolding count
count_absent k [] high all = refl
count_absent k (n ∷ ns) high all = ground (arith, count_absent k ns high all.1, all.0)

with_fixed-ok :
    (r : Result PlanError (List Track)) (ts : List Track)
    → with_fixed r ≡ ok ts
    → (us : List Track) × (r ≡ ok us) × (ts ≡ us ++ fixed_tracks)
with_fixed-ok (ok us) ts h = (us, refl, ground (arith, h))
with_fixed-ok (err e) ts h = cc

-- The plan of a valid map whose stereo pairs are adjacent inputs in order gives each of the
-- nineteen inputs of the recorder to exactly one track.
pub track_plan-once :
    (groups : List Text) (ss : List Source) (tracks : List Track) (k : ℕ)
    → IsMap groups ss
    → All Adjacent ss
    → track_plan ss ≡ ok tracks
    → 1 ≤ k
    → k ≤ 19
    → count k (taken tracks) ≡ 1
unfolding track_plan
track_plan-once groups ss tracks k valid adjacent h low high =
    let (us, planned, e) = with_fixed-ok (source_tracks [] ss) tracks h in
    let same = source_tracks-taken groups [] ss us valid.wellformed adjacent planned in
    let sum = count-append k (used ss) (taken fixed_tracks) in
    rw (e, taken-append us fixed_tracks, same, sum)
      (elim (Bool-cases (leb k 16)) [
        | inl small ↦ unfold count in ground (arith, valid.once k low (ground arith))
        | inr large ↦
            let absent =
              count_absent k (used ss) (ground arith) (used-IsInput groups ss valid.wellformed) in
            unfold count in ground (arith, absent)
      ])
