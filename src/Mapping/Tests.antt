-- ===== src/Mapping/Tests.antt =====
-- Pairing two inputs of a map of mono sources, and the theorems about edits on it.
use sc_adat_appliance.Base.{get_elem?, ℕ, ◌+◌, zero, suc, ◌≡◌, refl, some, List, [], ◌∷◌, arith}
use sc_adat_appliance.Base.Bytes.{same}
use sc_adat_appliance.Base.Text.{
  Text, codes, strip, strip_left, strip_right, is_space, contains, decimal,
}
use sc_adat_appliance.Base.Int.{pos}
use sc_adat_appliance.Base.Result.{ok}
use sc_adat_appliance.Base.Sealed.{◌>>=◌, ◌>>◌, raise_if}
use sc_adat_appliance.SourceMap
use sc_adat_appliance.SourceMap.{
  Mode, Source, mono, stereo, validate_source_map, check_entry, check_entries, check_cover, covers,
  uncovered, count, member, used, unique, physical, integers, mode_of, lookup, unknown, missing,
  snapshot, snapshots,
}
use sc_adat_appliance.SourceMap.Sound.{IsMap, validate_source_map-IsMap}
use sc_adat_appliance.Mapping.{
  first_with, current, split, remaining, insert, sorted, checked_partner, pair,
  runtime_source_entries, propose_mapping,
}
use sc_adat_appliance.Mapping.Cover.{propose_mapping-IsMap, runtime_source_entries-once}
use sc_adat_appliance.Mapping.State.{Row, mapping_state}
use sc_adat_appliance.Mapping.State.Pairing.{IsPaired, mapping_state-IsPaired}

abbrev groups : List Text
groups = codes "kick" ∷ codes "drums" ∷ []

abbrev input : ℕ → Source
input n = record {
  id = decimal n;
  name = codes "In";
  mode = mono;
  inputs = n ∷ [];
  group = codes "kick";
}

abbrev inputs_from : ℕ → ℕ → List Source
inputs_from zero n = []
inputs_from (suc k) n = input n ∷ inputs_from k (n + 1)

abbrev monos : List Source
monos = inputs_from 16 1

monos-accepted :
    validate_source_map (SourceMap.Entries.list (snapshots monos)) groups (codes "1") ≡ ok monos
unfolding validate_source_map check_entries check_entry snapshots snapshot lookup unknown missing
    contains same strip strip_left strip_right is_space mode_of integers physical unique member
    check_cover covers uncovered used decimal ◌>>=◌ ◌>>◌ raise_if
monos-accepted = refl

-- Inputs 2 and 1 become the left and the right of one source of the drums.
abbrev paired : Source
paired = record {
  id = codes "2";
  name = codes "In / In";
  mode = stereo;
  inputs = 2 ∷ 1 ∷ [];
  group = codes "drums";
}

pairs_inputs :
    runtime_source_entries monos 2 (pos 1) (some (codes "drums")) ≡ ok (paired ∷ inputs_from 14 3)
unfolding runtime_source_entries checked_partner pair current member sorted insert remaining split
    decimal ◌>>=◌ ◌>>◌ raise_if
pairs_inputs = refl

runtime_source_entries-once_example : count 7 (used (paired ∷ inputs_from 14 3)) ≡ 1
runtime_source_entries-once_example =
    runtime_source_entries-once groups monos 2 (pos 1) (some (codes "drums"))
      (paired ∷ inputs_from 14 3) 7
      (validate_source_map-IsMap (SourceMap.Entries.list (snapshots monos)) groups (codes "1") monos
        monos-accepted)
      pairs_inputs (omega arith) (omega arith)

proposes_pair :
    propose_mapping groups (codes "1") monos 2 (some (pos 1)) (some (codes "drums"))
    ≡ ok (paired ∷ inputs_from 14 3)
unfolding propose_mapping first_with runtime_source_entries checked_partner pair current sorted
    insert remaining split validate_source_map check_entries check_entry snapshots snapshot lookup
    unknown missing contains same strip strip_left strip_right is_space mode_of integers physical
    unique member check_cover covers uncovered used decimal ◌>>=◌ ◌>>◌ raise_if
proposes_pair = refl

pairs-IsMap : IsMap groups (paired ∷ inputs_from 14 3)
pairs-IsMap =
    propose_mapping-IsMap groups (codes "1") monos 2 (some (pos 1)) (some (codes "drums"))
      (paired ∷ inputs_from 14 3) proposes_pair

mapping_state-IsPaired_example :
    (all : List Row) × (mapping_state groups (paired ∷ inputs_from 14 3) ≡ ok all)
    × ((r : Row) × (get_elem? all 1 ≡ some r) × IsPaired all 2 r)
mapping_state-IsPaired_example =
    mapping_state-IsPaired groups (paired ∷ inputs_from 14 3) pairs-IsMap 2 (omega arith)
      (omega arith)
