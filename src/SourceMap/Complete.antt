-- ===== src/SourceMap/Complete.antt =====
-- Every source map is accepted: validating its snapshot gives it back.
use sc_adat_appliance.Base.{
  ℕ, suc, ◌≡◌, ◌≢◌, refl, ap, false, some, List, [], ◌∷◌, arith, length, All,
}
use sc_adat_appliance.Base.Bytes.{same, same_refl}
use sc_adat_appliance.Base.Text.{Text, codes, strip, strip_left, strip_right, is_space, contains}
use sc_adat_appliance.Base.Int.{ℤ, pos}
use sc_adat_appliance.Base.Result.{ok}
use sc_adat_appliance.Base.Sealed.{bind_ok, guard_ok}
use sc_adat_appliance.SourceMap
use sc_adat_appliance.SourceMap.{
  as_mode, as_integers, as_physical, Mode, mono, stereo, Source, MapError, Field, as_text, mode_of,
  mode_text, as_item, lookup, unknown, missing, expected, integers, physical, unique, check_entry,
  check_entries, used, uncovered, covers, count, check_cover, validate_source_map, snapshot,
  snapshots, groups_of, source_map_snapshot,
}
use sc_adat_appliance.SourceMap.Count.{uncovered_none}
use sc_adat_appliance.SourceMap.Sound.{IsInput, IsClean, IsSource, FreshIds, IsMap}

as_text_clean : (e : MapError) (t : Text) → IsClean t → as_text e (some (SourceMap.text t)) ≡ ok t
as_text_clean e t h = ground arith

mode_of-mode_text : (m : Mode) → mode_of (mode_text m) ≡ some m
unfolding mode_of same
mode_of-mode_text mono = refl
mode_of-mode_text stereo = refl

abbrev as_ints : List ℕ → List ℤ
as_ints [] = []
as_ints (n ∷ ns) = pos n ∷ as_ints ns

integers-as_item : (ns : List ℕ) → integers (as_item ns) ≡ some (as_ints ns)
unfolding integers
integers-as_item [] = refl
integers-as_item (n ∷ ns) = rw (integers-as_item ns) refl

physical-as_ints : (ns : List ℕ) → All IsInput ns → physical (as_ints ns) ≡ some ns
unfolding physical
physical-as_ints [] h = refl
physical-as_ints (n ∷ ns) h = ground (arith, physical-as_ints ns h.1, h.0)

length-as_item : (ns : List ℕ) → length (as_item ns) ≡ length ns
length-as_item [] = refl
length-as_item (n ∷ ns) = ap suc (length-as_item ns)

IsClean-mode_text : (m : Mode) → IsClean (mode_text m)
unfolding strip strip_left strip_right is_space
IsClean-mode_text mono = (refl, omega arith)
IsClean-mode_text stereo = (refl, omega arith)

as_mode-mode_text :
    (source_id : Text) (m : Mode) → as_mode source_id (mode_text m) (mode_of (mode_text m)) ≡ ok m
as_mode-mode_text source_id m = rw mode_of-mode_text refl

as_integers-as_item :
    (source_id : Text) (ns : List ℕ)
    → as_integers source_id (integers (as_item ns)) ≡ ok (as_ints ns)
as_integers-as_item source_id ns = rw integers-as_item refl

as_physical-as_ints :
    (source_id : Text) (ns : List ℕ)
    → All IsInput ns
    → as_physical source_id (physical (as_ints ns)) ≡ ok ns
as_physical-as_ints source_id ns h = rw (physical-as_ints ns h) refl

check_entry-snapshot :
    (groups : List Text) (position : ℕ) (ids : List Text) (s : Source)
    → IsSource groups s
    → contains ids s.id ≡ false
    → check_entry groups position ids (snapshot s) ≡ ok s
unfolding check_entry snapshot lookup unknown missing contains same
check_entry-snapshot groups position ids s h new = guard_ok _ refl (
    guard_ok _ refl (
      bind_ok _ (as_text_clean _ s.id h.id_clean) (
        bind_ok _ (as_text_clean _ s.name h.name_clean) (
          bind_ok _ (as_text_clean _ (mode_text s.mode) (IsClean-mode_text s.mode)) (
            bind_ok _ (as_mode-mode_text s.id s.mode) (
              guard_ok _ new (
                bind_ok _ refl (
                  guard_ok _ (ground (arith, h.arity, length-as_item s.inputs)) (
                    bind_ok _ (as_integers-as_item s.id s.inputs) (
                      bind_ok _ (as_physical-as_ints s.id s.inputs h.in_range) (
                        guard_ok _ (ground (arith, h.distinct)) (
                          bind_ok _ (as_text_clean _ s.group h.group_clean)
                            (guard_ok _ (ground (arith, h.group_known)) refl)))))))))))))

check_entries-snapshots :
    (groups : List Text) (position : ℕ) (ids : List Text) (sources : List Source)
    → All (IsSource groups) sources
    → FreshIds ids sources
    → check_entries groups position ids (snapshots sources) ≡ ok sources
unfolding check_entries snapshots
check_entries-snapshots groups position ids [] valid fresh = refl
check_entries-snapshots groups position ids (s ∷ ss) valid fresh =
    bind_ok _ (check_entry-snapshot groups position ids s valid.0 fresh.0) (
      bind_ok _ (check_entries-snapshots groups (suc position) (s.id ∷ ids) ss valid.1 fresh.1)
        refl)

check_cover-IsMap :
    (groups : List Text) (sources : List Source)
    → IsMap groups sources
    → check_cover sources ≡ ok sources
unfolding check_cover covers
check_cover-IsMap groups sources h =
    let none_left : uncovered 16 (used sources) ≡ [] =
      uncovered_none 16 (used sources) (λ k lo hi. omega (arith, h.once k lo hi)) in
    rw (none_left, h.size) refl

groups-ne-nil :
    (groups : List Text) (sources : List Source) → IsMap groups sources → length groups ≢ 0
unfolding used
groups-ne-nil groups [] h = absurd (omega (arith, h.size))
groups-ne-nil [] (s ∷ ss) h = unfold contains in (λ _. cc (h.wellformed.0.group_known))
groups-ne-nil (g ∷ gs) (s ∷ ss) h = omega arith

-- The snapshot of a source map, read as a proposal, is accepted and gives the map back.
pub validate_source_map-snapshots :
    (groups : List Text) (sources : List Source)
    → IsMap groups sources
    → validate_source_map (SourceMap.Entries.list (snapshots sources)) groups (codes "1")
      ≡ ok sources
unfolding validate_source_map
validate_source_map-snapshots groups sources h = guard_ok _ (rw (same_refl (codes "1")) refl) (
    guard_ok _ (ground (arith, groups-ne-nil groups sources h)) (
      bind_ok _ refl (
        bind_ok _ (check_entries-snapshots groups 1 [] sources h.wellformed h.fresh)
          (check_cover-IsMap groups sources h))))
