-- ===== src/Config/Tests.antt =====
-- The lines of a configuration with fifteen sources, and the theorem on them.
use sc_adat_appliance.Base.{ℕ, ◌+◌, zero, suc, ◌≡◌, refl, List, [], ◌∷◌, ◌++◌}
use sc_adat_appliance.Base.Bytes.{same}
use sc_adat_appliance.Base.Number.{int_of_text, digits}
use sc_adat_appliance.Base.Result.{ok}
use sc_adat_appliance.Base.Sealed.{◌>>=◌, ◌>>◌, raise_if}
use sc_adat_appliance.Base.Text.{
  Text, codes, strip, strip_left, strip_right, is_space, contains, decimal,
}
use sc_adat_appliance.SourceMap.{
  Source, mono, stereo, validate_source_map, check_entry, check_entries, check_cover, covers,
  uncovered, member, used, unique, physical, integers, mode_of, lookup, unknown, missing,
}
use sc_adat_appliance.SourceMap.Sound.{IsMap}
use sc_adat_appliance.Config.{
  Values, value_of, with_value, halves, read_lines, missing_of, split_commas, as_integers,
  entries_from, starts_with, is_field_of, is_field, check_keys, numbered_entries,
  configured_source_entries, configured_sources,
}
use sc_adat_appliance.Config.Known.{Accounts, configured_sources-IsMap}

abbrev groups : List Text
groups = codes "all" ∷ []

-- The five values of a source.
abbrev source_values : ℕ → Text → Text → Values
source_values n mode inputs =
    (codes "source." ++ decimal n ++ codes ".id", codes "s" ++ decimal n)
    ∷ (codes "source." ++ decimal n ++ codes ".name", codes "In")
    ∷ (codes "source." ++ decimal n ++ codes ".mode", mode)
    ∷ (codes "source." ++ decimal n ++ codes ".inputs", inputs)
    ∷ (codes "source." ++ decimal n ++ codes ".group", codes "all")
    ∷ []

abbrev mono_values : ℕ → ℕ → Values
mono_values zero n = []
mono_values (suc k) n = source_values n (codes "mono") (decimal (n + 1)) ++ mono_values k (n + 1)

abbrev values : Values
values =
    (codes "source_map_version", codes "1")
    ∷ (codes "source.count", codes "15")
    ∷ (source_values 1 (codes "stereo") (codes "1, 2") ++ mono_values 14 2)

two_lines :
    read_lines
      (codes "# the map" ∷ codes " source_map_version=1 " ∷ codes "source.count = 15" ∷ [])
      []
    ≡ ok ((codes "source_map_version", codes "1") ∷ (codes "source.count", codes "15") ∷ [])
unfolding read_lines halves with_value strip strip_left strip_right is_space same ◌>>=◌
two_lines = refl

abbrev single : ℕ → Source
single n = record {
  id = codes "s" ++ decimal n;
  name = codes "In";
  mode = mono;
  inputs = (n + 1) ∷ [];
  group = codes "all";
}

abbrev singles : ℕ → ℕ → List Source
singles zero n = []
singles (suc k) n = single n ∷ singles k (n + 1)

abbrev sources : List Source
sources =
    record {
      id = codes "s1";
      name = codes "In";
      mode = stereo;
      inputs = 1 ∷ 2 ∷ [];
      group = codes "all";
    }
    ∷ singles 14 2

accepted : configured_sources groups values ≡ ok sources
unfolding configured_sources configured_source_entries value_of numbered_entries entries_from
    missing_of split_commas as_integers starts_with is_field_of is_field check_keys int_of_text
    digits validate_source_map check_entries check_entry lookup unknown missing contains same strip
    strip_left strip_right is_space mode_of integers physical unique member check_cover covers
    uncovered used decimal ◌>>=◌ ◌>>◌ raise_if
accepted = refl

configured_sources-IsMap_example :
    IsMap groups sources × Accounts (value_of (codes "source.count") values) values 15
configured_sources-IsMap_example = configured_sources-IsMap groups values sources accepted
