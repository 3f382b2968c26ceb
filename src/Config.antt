-- ===== src/Config.antt =====
-- mixer/mixerctl.py: the lines of the configuration, as `read_config` reads them, and its source
-- map: `_legacy_source_entries`, `_configured_source_entries`, `configured_sources`.
pub mod Counted
pub mod Known
mod Tests
use sc_adat_appliance.Base.{
  ℕ, ◌+◌, zero, suc, Bool, true, false, not, ◌&&◌, ◌||◌, Option, none, some, List, [], ◌∷◌, ◌++◌,
  length, leb, ◌==◌, if◌then◌else◌,
}
use sc_adat_appliance.Base.Bytes.{same}
use sc_adat_appliance.Base.Int.{ℤ, pos, negsuc}
use sc_adat_appliance.Base.Number.{int_of_text}
use sc_adat_appliance.Base.Result.{Result, ok, err}
use sc_adat_appliance.Base.Sealed.{◌>>=◌, ◌>>◌, raise_if}
use sc_adat_appliance.Base.Text.{Text, codes, strip, decimal}
use sc_adat_appliance.SourceMap
use sc_adat_appliance.SourceMap.{
  Source, Item, Value, Raw, Field, MapError, Checked, key, validate_source_map,
}

-- The dictionary of the configuration, whose keys and values are texts.
abbrev pub Values : Type 0
Values = List (Text × Text)

unfoldable pub value_of : Text → Values → Option Text
value_of k [] = none
value_of k ((j, v) ∷ rest) = let later = value_of k rest in if same j k then some v else later

unfoldable pub with_value : Text → Text → Values → Values
with_value k v [] = (k, v) ∷ []
with_value k v ((j, w) ∷ rest) =
    let later = with_value k v rest in if same j k then (j, v) ∷ rest else (j, w) ∷ later

-- The messages of a ValueError, and the KeyError of a key that is not there.
pub data ConfigError : Type 0 where
  no_equals bad_map_version bad_count count_range bad_integer : ConfigError
  key_error unknown_field : Text → ConfigError
  missing_fields : ℕ → List Field → ConfigError
  bad_inputs : ℕ → ConfigError
  not_a_map : MapError → ConfigError

-- `line.split("=", 1)` of a line with "=".
unfoldable pub halves : Text → Option (Text × Text)
halves [] = none
halves (c ∷ cs) =
    let later = halves cs in
    if c == b'=' then some ([], cs) else elim later [ none ↦ none | some (k, v) ↦ some (c ∷ k, v) ]

abbrev pub is_comment : Text → Bool
is_comment [] = true
is_comment (c ∷ cs) = c == b'#'

abbrev pub with_halves : Option (Text × Text) → Values → Result ConfigError Values
with_halves none values = err no_equals
with_halves (some (k, v)) values = ok (with_value (strip k) (strip v) values)

-- The loop over the lines.
unfoldable pub read_lines : List Text → Values → Result ConfigError Values
read_lines [] values = ok values
read_lines (line ∷ lines) values =
    (if is_comment (strip line) then ok values else with_halves (halves (strip line)) values)
    >>= λ after. read_lines lines after

-- `values[key]`
abbrev pub or_key_error : Text → Option Text → Result ConfigError Text
or_key_error k none = err (key_error k)
or_key_error k (some v) = ok v

abbrev pub or_error {ℓ} : {A : Type ℓ} → ConfigError → Option A → Result ConfigError A
or_error e none = err e
or_error e (some a) = ok a

abbrev pub entry : Text → Text → Text → List Item → Text → Raw
entry id name mode inputs group = SourceMap.mapping (
    (codes "id", SourceMap.Value.text id)
    ∷ (codes "name", SourceMap.Value.text name)
    ∷ (codes "mode", SourceMap.Value.text mode)
    ∷ (codes "inputs", SourceMap.Value.list inputs)
    ∷ (codes "group", SourceMap.Value.text group)
    ∷ [])

abbrev pub channel_key : ℕ → Text → Text
channel_key ch field = codes "channel." ++ decimal ch ++ codes "." ++ field

abbrev pub or_text : Text → Option Text → Text
or_text d none = d
or_text d (some t) = t

-- `_legacy_source_entries`, from a channel on.
unfoldable pub legacy_from : Values → ℕ → ℕ → Result ConfigError (List Raw)
legacy_from values zero ch = ok []
legacy_from values (suc rounds) ch = do
  name ←
      or_key_error (channel_key ch (codes "name")) (value_of (channel_key ch (codes "name")) values)
  input ←
      or_key_error (channel_key ch (codes "input"))
        (value_of (channel_key ch (codes "input")) values)
  number ← or_error bad_integer (int_of_text input)
  group ←
      or_key_error (channel_key ch (codes "group"))
        (value_of (channel_key ch (codes "group")) values)
  later ← legacy_from values rounds (suc ch)
  ok (entry name name (codes "mono") (SourceMap.int number ∷ []) group ∷ later)

abbrev pub field_key : ℕ → Field → Text
field_key index f = codes "source." ++ decimal index ++ codes "." ++ key f

abbrev pub fields : List Field
fields = SourceMap.id ∷ SourceMap.name ∷ SourceMap.mode ∷ SourceMap.inputs ∷ SourceMap.group ∷ []

abbrev pub is_absent : Option Text → Bool
is_absent none = true
is_absent (some v) = false

-- `[field for field in required if f"{prefix}{field}" not in values]`
unfoldable pub missing_of : Values → ℕ → List Field → List Field
missing_of values index [] = []
missing_of values index (f ∷ fs) =
    let later = missing_of values index fs in
    if is_absent (value_of (field_key index f) values) then f ∷ later else later

-- `text.split(",")`
abbrev pub onto_first : ℕ → List Text → List Text
onto_first c [] = (c ∷ []) ∷ []
onto_first c (t ∷ ts) = (c ∷ t) ∷ ts

unfoldable pub split_commas : Text → List Text
split_commas [] = [] ∷ []
split_commas (c ∷ cs) =
    let later = split_commas cs in if c == b',' then [] ∷ later else onto_first c later

abbrev pub and_item : Option ℤ → Option (List Item) → Option (List Item)
and_item none later = none
and_item (some n) none = none
and_item (some n) (some items) = some (SourceMap.int n ∷ items)

-- `[int(item.strip()) for item in raw_inputs]`
unfoldable pub as_integers : List Text → Option (List Item)
as_integers [] = some []
as_integers (t ∷ ts) = and_item (int_of_text (strip t)) (as_integers ts)

-- The loop over the sources, from an index on.
unfoldable pub entries_from : Values → ℕ → ℕ → Result ConfigError (List Raw)
entries_from values zero index = ok []
entries_from values (suc rounds) index = do
  raise_if (not (length (missing_of values index fields) == 0))
      (missing_fields index (missing_of values index fields))
  inputs ←
      or_error (key_error (field_key index SourceMap.inputs))
        (value_of (field_key index SourceMap.inputs) values)
  numbers ← or_error (bad_inputs index) (as_integers (split_commas inputs))
  id ←
      or_error (key_error (field_key index SourceMap.id))
        (value_of (field_key index SourceMap.id) values)
  name ←
      or_error (key_error (field_key index SourceMap.name))
        (value_of (field_key index SourceMap.name) values)
  mode ←
      or_error (key_error (field_key index SourceMap.mode))
        (value_of (field_key index SourceMap.mode) values)
  group ←
      or_error (key_error (field_key index SourceMap.group))
        (value_of (field_key index SourceMap.group) values)
  later ← entries_from values rounds (suc index)
  ok (entry id name mode numbers group ∷ later)

unfoldable pub starts_with : Text → Text → Bool
starts_with [] t = true
starts_with (c ∷ cs) [] = false
starts_with (c ∷ cs) (d ∷ ds) = c == d && starts_with cs ds

-- `any(key == f"source.{i}.{field}" for i in range(1, count + 1) for field in (...))`
unfoldable pub is_field_of : ℕ → List Field → Text → Bool
is_field_of index [] t = false
is_field_of index (f ∷ fs) t = same t (field_key index f) || is_field_of index fs t

unfoldable pub is_field : ℕ → Text → Bool
is_field zero t = false
is_field (suc n) t = is_field_of (suc n) fields t || is_field n t

abbrev pub is_unknown : ℕ → Text → Bool
is_unknown count t =
    starts_with (codes "source.") t
    && not (same t (codes "source_map_version") || same t (codes "source.count"))
    && not (is_field count t)

-- `for key in values`
unfoldable pub check_keys :
    ℕ → Values → Result ConfigError (List Raw) → Result ConfigError (List Raw)
check_keys count [] entries = entries
check_keys count ((k, v) ∷ rest) entries =
    raise_if (is_unknown count k) (unknown_field k) >> check_keys count rest entries

abbrev pub counted : Values → ℤ → Result ConfigError (List Raw)
counted values (negsuc n) = err count_range
counted values (pos n) =
    if not (leb 1 n && leb n 16)
    then err count_range
    else (entries_from values n 1 >>= λ entries. check_keys n values (ok entries))

-- The entries of a configuration with a source count.
unfoldable pub numbered_entries : Values → Text → Result ConfigError (List Raw)
numbered_entries values count = do
  raise_if
      (not (same (or_text (codes "") (value_of (codes "source_map_version") values)) (codes "1")))
      bad_map_version
  n ← or_error bad_count (int_of_text count)
  counted values n

abbrev pub configured_with : Values → Option Text → Result ConfigError (List Raw)
configured_with values none = legacy_from values 16 1
configured_with values (some count) = numbered_entries values count

unfoldable pub configured_source_entries : Values → Result ConfigError (List Raw)
configured_source_entries values = configured_with values (value_of (codes "source.count") values)

abbrev pub as_config : Checked (List Source) → Result ConfigError (List Source)
as_config (ok sources) = ok sources
as_config (err e) = err (not_a_map e)

unfoldable pub configured_sources : List Text → Values → Result ConfigError (List Source)
configured_sources groups values = configured_source_entries values >>= λ entries. as_config (
    validate_source_map (SourceMap.Entries.list entries) groups
      (or_text (codes "1") (value_of (codes "source_map_version") values)))
