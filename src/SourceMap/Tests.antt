-- ===== src/SourceMap/Tests.antt =====
-- A proposed map of fourteen mono sources and one stereo pair, and the theorems on it.
use sc_adat_appliance.Base.{ℕ, ◌+◌, zero, suc, ◌≡◌, refl, List, [], ◌∷◌}
use sc_adat_appliance.Base.Bytes.{same}
use sc_adat_appliance.Base.Text.{
  Text, codes, strip, strip_left, strip_right, is_space, contains, decimal,
}
use sc_adat_appliance.Base.Result.{ok}
use sc_adat_appliance.Base.Sealed.{◌>>=◌, ◌>>◌, raise_if}
use sc_adat_appliance.SourceMap
use sc_adat_appliance.SourceMap.{
  Mode, Source, Raw, mono, stereo, validate_source_map, check_entry, check_entries, check_cover,
  covers, uncovered, count, member, used, unique, physical, integers, mode_of, lookup, unknown,
  missing, snapshot, snapshots, source_map_snapshot,
}
use sc_adat_appliance.SourceMap.Sound.{IsMap, validate_source_map-IsMap}
use sc_adat_appliance.SourceMap.Complete.{validate_source_map-snapshots}
use sc_adat_appliance.SourceMap.Atomic.{AtomicSourceMap, make, replace_all, held-IsMap}

abbrev groups : List Text
groups = codes "kick" ∷ codes "drums" ∷ []

abbrev pair : Source
pair = record {
  id = codes "keys";
  name = codes "Keys";
  mode = stereo;
  inputs = 16 ∷ 1 ∷ [];
  group = codes "drums";
}

-- The mono sources of the inputs 2..15.
abbrev single : ℕ → Source
single n = record {
  id = decimal n;
  name = codes "In";
  mode = mono;
  inputs = n ∷ [];
  group = codes "kick";
}

abbrev singles : ℕ → ℕ → List Source
singles zero n = []
singles (suc k) n = single n ∷ singles k (n + 1)

abbrev sources : List Source
sources = pair ∷ singles 14 2

abbrev proposal : SourceMap.Entries
proposal = SourceMap.Entries.list (unfold snapshots in snapshots sources)

accepted : validate_source_map proposal groups (codes "1") ≡ ok sources
unfolding validate_source_map check_entries check_entry snapshots snapshot lookup unknown missing
    contains same strip strip_left strip_right is_space mode_of integers physical unique member
    check_cover covers uncovered used decimal ◌>>=◌ ◌>>◌ raise_if
accepted = refl

validate_source_map-IsMap_example : IsMap groups sources
validate_source_map-IsMap_example =
    validate_source_map-IsMap proposal groups (codes "1") sources accepted

validate_source_map-snapshots_example :
    validate_source_map (SourceMap.Entries.list (snapshots sources)) groups (codes "1") ≡ ok sources
validate_source_map-snapshots_example =
    validate_source_map-snapshots groups sources validate_source_map-IsMap_example

abbrev held : AtomicSourceMap
held = record { groups = groups; version = codes "1"; sources = sources }

-- A proposal that leaves inputs out, and one that is no list.
abbrev refused : List SourceMap.Entries
refused = SourceMap.Entries.list (snapshot pair ∷ []) ∷ SourceMap.Entries.other ∷ []

made : make proposal groups (codes "1") ≡ ok held
unfolding make ◌>>=◌
made = rw accepted refl

held-IsMap_example : IsMap groups (replace_all refused held).sources
held-IsMap_example = held-IsMap proposal groups (codes "1") held refused made
