-- ===== src/SourceMap/Sound.antt =====
-- What the validation promises of the sources that it returns.
use sc_adat_appliance.Base.{
  ℕ, ◌≤◌, suc, ◌≡◌, ◌≢◌, refl, true, false, Option, none, some, List, [], ◌∷◌, arith, length, All,
}
use sc_adat_appliance.Base.Text.{Text, strip, strip_idem, contains}
use sc_adat_appliance.Base.Int.{ℤ, pos, negsuc}
use sc_adat_appliance.Base.Result.{ok}
use sc_adat_appliance.Base.Sealed.{Ensures, Ensures-bind, Ensures-guard, Ensures-ok}
use sc_adat_appliance.SourceMap
use sc_adat_appliance.SourceMap.{
  Mode, Source, Item, Value, Raw, Entries, Field, MapError, as_text, as_mode, as_items, as_integers,
  as_physical, expected, integers, physical, unique, check_entry, check_entries, used, covers,
  count, check_cover, validate_source_map,
}
use sc_adat_appliance.SourceMap.Count.{covers-once}

abbrev pub IsInput : ℕ → Type 0
IsInput n = (1 ≤ n) × (n ≤ 16)

-- A text as `_text` leaves it.
abbrev pub IsClean : Text → Type 0
IsClean t = (strip t ≡ t) × (length t ≢ 0)

pub record IsSource (groups : List Text) (s : Source) : Type 0 where
  pub id_clean : IsClean s.id
  pub name_clean : IsClean s.name
  pub arity : length s.inputs ≡ expected s.mode
  pub in_range : All IsInput s.inputs
  pub distinct : unique s.inputs ≡ true
  pub group_clean : IsClean s.group
  pub group_known : contains groups s.group ≡ true

-- No id stands in the list or twice among the sources.
abbrev pub FreshIds : List Text → List Source → Type 0
FreshIds ids [] = Unit
FreshIds ids (s ∷ ss) = (contains ids s.id ≡ false) × FreshIds (s.id ∷ ids) ss

-- A source map: well-formed sources, each id once, and each physical input in exactly one place.
pub record IsMap (groups : List Text) (sources : List Source) : Type 0 where
  pub wellformed : All (IsSource groups) sources
  pub fresh : FreshIds [] sources
  pub once : (k : ℕ) → 1 ≤ k → k ≤ 16 → count k (used sources) ≡ 1
  pub size : length (used sources) ≡ 16

as_text-IsClean : (e : MapError) (v : Option Value) (t : Text) → as_text e v ≡ ok t → IsClean t
as_text-IsClean e none t h = cc
as_text-IsClean e (some (SourceMap.text s)) t h = ground (arith, strip_idem s)
as_text-IsClean e (some (SourceMap.Value.list items)) t h = cc
as_text-IsClean e (some SourceMap.Value.other) t h = cc

length-integers :
    (items : List Item) (ns : List ℤ) → integers items ≡ some ns → length ns ≡ length items
unfolding integers
length-integers [] ns h = ground arith
length-integers (SourceMap.int n ∷ rest) [] h = ground arith
length-integers (SourceMap.int n ∷ rest) (m ∷ ms) h = ground (arith, length-integers rest ms)
length-integers (SourceMap.Item.other ∷ rest) ns h = cc

physical-IsInput :
    (zs : List ℤ) (ns : List ℕ) → physical zs ≡ some ns → All IsInput ns × (length ns ≡ length zs)
unfolding physical
physical-IsInput [] [] h = (tt, refl)
physical-IsInput [] (m ∷ ms) h = cc
physical-IsInput (pos n ∷ rest) [] h = ground arith
physical-IsInput (pos n ∷ rest) (m ∷ ms) h = ground (arith, physical-IsInput rest ms)
physical-IsInput (negsuc n ∷ rest) ns h = cc

length-as_integers :
    (source_id : Text) (items : List Item) (ns : List ℤ)
    → as_integers source_id (integers items) ≡ ok ns
    → length ns ≡ length items
length-as_integers source_id items ns h = ground (arith, length-integers items ns)

as_physical-IsInput :
    (source_id : Text) (zs : List ℤ) (ns : List ℕ)
    → as_physical source_id (physical zs) ≡ ok ns
    → All IsInput ns × (length ns ≡ length zs)
as_physical-IsInput source_id zs ns h = physical-IsInput zs ns (ground arith)

check_entry-IsSource :
    (groups : List Text) (position : ℕ) (ids : List Text) (raw : Raw)
    → Ensures
        (λ s. IsSource groups s × (contains ids s.id ≡ false))
        (check_entry groups position ids raw)
unfolding check_entry
check_entry-IsSource groups position ids SourceMap.Raw.other = record { at = λ s h. cc }
check_entry-IsSource groups position ids (SourceMap.mapping m) = Ensures-guard _ λ _.
    Ensures-guard _ λ _. Ensures-bind λ source_id id_eq. Ensures-bind λ source_name name_eq.
      Ensures-bind λ mode_text _. Ensures-bind λ source_mode _. Ensures-guard _ λ new.
        Ensures-bind λ items _. Ensures-guard _ λ sized. Ensures-bind λ ns ns_eq.
          Ensures-bind λ numbers numbers_eq. Ensures-guard _ λ once.
            Ensures-bind λ source_group group_eq. Ensures-guard _ λ known.
              let inputs = as_physical-IsInput source_id ns numbers numbers_eq in
              Ensures-ok (
                record {
                  id_clean = as_text-IsClean _ _ source_id id_eq;
                  name_clean = as_text-IsClean _ _ source_name name_eq;
                  arity = ground (arith, inputs.1, length-as_integers source_id items ns ns_eq);
                  in_range = inputs.0;
                  distinct = ground arith;
                  group_clean = as_text-IsClean _ _ source_group group_eq;
                  group_known = ground arith;
                },
                new,
              )

check_entries-IsSource :
    (groups : List Text) (position : ℕ) (ids : List Text) (raws : List Raw)
    → Ensures
        (λ ss. All (IsSource groups) ss × FreshIds ids ss)
        (check_entries groups position ids raws)
unfolding check_entries
check_entries-IsSource groups position ids [] = Ensures-ok (tt, tt)
check_entries-IsSource groups position ids (raw ∷ rest) = Ensures-bind λ s one.
    Ensures-bind λ ss more.
      let (valid, new) = (check_entry-IsSource groups position ids raw).at s one in
      let (valids, fresh) =
        (check_entries-IsSource groups (suc position) (s.id ∷ ids) rest).at ss more in
      Ensures-ok ((valid, valids), (new, fresh))

check_cover-eq-ok :
    (sources ss : List Source)
    → check_cover sources ≡ ok ss
    → (ss ≡ sources) × (covers (used sources) ≡ true) × (length (used sources) ≡ 16)
unfolding check_cover
check_cover-eq-ok sources ss h = ground arith

-- The sources of an accepted map are well formed, have distinct ids, and hold each physical input
-- 1..16 exactly once.
pub validate_source_map-IsMap :
    (entries : Entries) (groups : List Text) (version : Text) (sources : List Source)
    → validate_source_map entries groups version ≡ ok sources
    → IsMap groups sources
unfolding validate_source_map
validate_source_map-IsMap entries groups version = validated.at
  where
    validated : Ensures (IsMap groups) (validate_source_map entries groups version)
    validated = Ensures-guard _ λ _. Ensures-guard _ λ _. Ensures-bind λ raws _.
        Ensures-bind λ ss eq. record {
          at = λ out accepted.
              let (same_list, full, size) = check_cover-eq-ok ss out accepted in
              let (valid, fresh) = (check_entries-IsSource groups 1 [] raws).at ss eq in
              rw same_list (record {
                wellformed = valid;
                fresh = fresh;
                once = covers-once (used ss) full size;
                size = size;
              });
        }
