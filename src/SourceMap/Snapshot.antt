-- ===== src/SourceMap/Snapshot.antt =====
-- `source_map_snapshot` on a valid map.
use sc_adat_appliance.Base.{◌≡◌, refl, true, List, [], ◌∷◌, arith, All}
use sc_adat_appliance.Base.Bytes.{same_refl}
use sc_adat_appliance.Base.Text.{Text, codes, contains}
use sc_adat_appliance.Base.Result.{ok}
use sc_adat_appliance.Base.Sealed.{bind_ok}
use sc_adat_appliance.SourceMap.{Source, snapshots, groups_of, source_map_snapshot}
use sc_adat_appliance.SourceMap.Sound.{IsSource, IsMap}
use sc_adat_appliance.SourceMap.Complete.{validate_source_map-snapshots}

-- Every group of the sources stands in the list.
abbrev Known : List Text → List Source → Type 0
Known groups [] = Unit
Known groups (s ∷ ss) = (contains groups s.group ≡ true) × Known groups ss

Known-cons :
    (g : Text) (groups : List Text) (ss : List Source) → Known groups ss → Known (g ∷ groups) ss
unfolding contains
Known-cons g groups [] h = tt
Known-cons g groups (s ∷ ss) h = (ground (arith, h.0), Known-cons g groups ss h.1)

Known-groups_of : (ss : List Source) → Known (groups_of ss) ss
unfolding groups_of contains
Known-groups_of [] = tt
Known-groups_of (s ∷ ss) =
    (rw (same_refl s.group) refl, Known-cons s.group (groups_of ss) ss (Known-groups_of ss))

regroup :
    (groups known : List Text) (ss : List Source)
    → All (IsSource groups) ss
    → Known known ss
    → All (IsSource known) ss
regroup groups known [] h k = tt
regroup groups known (s ∷ ss) (v, h) (g, k) = (
  record {
    id_clean = v.id_clean;
    name_clean = v.name_clean;
    arity = v.arity;
    in_range = v.in_range;
    distinct = v.distinct;
    group_clean = v.group_clean;
    group_known = g;
  },
  regroup groups known ss h k,
)

-- The snapshot of a valid map passes its own validation, over the groups that the map uses, and
-- lists every source as it is.
pub source_map_snapshot-IsMap :
    (groups : List Text) (sources : List Source)
    → IsMap groups sources
    → source_map_snapshot sources (codes "1") ≡ ok (snapshots sources)
unfolding source_map_snapshot
source_map_snapshot-IsMap groups sources h =
    bind_ok _
      (validate_source_map-snapshots (groups_of sources) sources (record {
        wellformed =
            regroup groups (groups_of sources) sources h.wellformed (Known-groups_of sources);
        fresh = h.fresh;
        once = h.once;
        size = h.size;
      }))
      refl
