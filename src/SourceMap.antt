-- ===== src/SourceMap.antt =====
-- mixer/source_map.py: the validated map of physical inputs to logical sources.
pub mod Count
pub mod Sound
pub mod Complete
pub mod Atomic
pub mod Snapshot
mod Tests
use Prim.Native.String.{String}
use sc_adat_appliance.Base.{
  ℕ, ◌+◌, ◌≡◌, zero, suc, Bool, true, false, not, ◌&&◌, ◌||◌, Option, none, some, List, [], ◌∷◌,
  ◌++◌, length, ltb, leb, ◌==◌, if◌then◌else◌,
}
use sc_adat_appliance.Base.Bytes.{same}
use sc_adat_appliance.Base.Text.{Text, codes, strip, contains, comes_before}
use sc_adat_appliance.Base.Int.{ℤ, pos, negsuc}
use sc_adat_appliance.Base.Result.{Result, ok, err}
use sc_adat_appliance.Base.Sealed.{raise_if, ◌>>=◌, ◌>>◌}

pub data Mode : Type 0 where
  mono stereo : Mode

-- A validated source.
pub record Source : Type 0 where
  pub id : Text
  pub name : Text
  pub mode : Mode
  pub inputs : List ℕ
  pub group : Text

-- What a proposed map may hold, before it is checked: members of an `inputs` list, the values of
-- a mapping, and the entries.
pub data Item : Type 0 where
  int : ℤ → Item
  other : Item

pub data Value : Type 0 where
  text : Text → Value
  list : List Item → Value
  other : Value

pub data Raw : Type 0 where
  mapping : List (Text × Value) → Raw
  other : Raw

pub data Entries : Type 0 where
  list : List Raw → Entries
  other : Entries

pub data Field : Type 0 where
  id name mode inputs group : Field

abbrev pub key : Field → Text
key id = codes "id"
key name = codes "name"
key mode = codes "mode"
key inputs = codes "inputs"
key group = codes "group"

-- The messages of `SourceMapError`.
pub data MapError : Type 0 where
  bad_version no_groups not_a_list : MapError
  not_an_object : ℕ → MapError
  unknown_fields : ℕ → List Text → MapError
  missing_fields : ℕ → List Text → MapError
  empty_text : ℕ → Field → MapError
  empty_group : Text → MapError
  unknown_mode : Text → Text → MapError
  duplicate_id : Text → MapError
  inputs_not_a_list : Text → MapError
  wrong_count : Text → Mode → MapError
  not_integers : Text → MapError
  out_of_range : Text → MapError
  not_unique : Text → MapError
  no_such_group : Text → Text → MapError
  not_covered : List ℕ → List ℕ → MapError

abbrev pub Checked : Type 0 → Type 0
Checked A = Result MapError A

-- `raw.get(key)`
unfoldable pub lookup : Text → List (Text × Value) → Option Value
lookup k [] = none
lookup k ((j, v) ∷ rest) = if same j k then some v else lookup k rest

abbrev pub required : List Text
required = key id ∷ key name ∷ key mode ∷ key inputs ∷ key group ∷ []

-- `set(raw) - required`
unfoldable pub unknown : List (Text × Value) → List Text
unknown [] = []
unknown ((j, v) ∷ rest) = if contains required j then unknown rest else j ∷ unknown rest

-- `required - set(raw)`
unfoldable pub missing : List Text → List (Text × Value) → List Text
missing [] m = []
missing (k ∷ ks) m = elim (lookup k m) [ none ↦ k ∷ missing ks m | some v ↦ missing ks m ]

-- `sorted(...)` of texts.
unfoldable pub insert_text : Text → List Text → List Text
insert_text t [] = t ∷ []
insert_text t (u ∷ us) =
    let later = insert_text t us in if comes_before t u then t ∷ u ∷ us else u ∷ later

unfoldable pub sorted_texts : List Text → List Text
sorted_texts [] = []
sorted_texts (t ∷ ts) = insert_text t (sorted_texts ts)

-- `_text`, with the error that names the field; `missing` has seen to it that the field is there.
abbrev pub as_text : MapError → Option Value → Checked Text
as_text e (some (text t)) = if length (strip t) == 0 then err e else ok (strip t)
as_text e _ = err e

unfoldable pub mode_of : Text → Option Mode
mode_of t =
    if same t (codes "mono")
    then some mono
    else if same t (codes "stereo")
    then some stereo
    else none

abbrev pub as_mode : Text → Text → Option Mode → Checked Mode
as_mode source_id t (some m) = ok m
as_mode source_id t none = err (unknown_mode source_id t)

abbrev pub as_items : Text → Option Value → Checked (List Item)
as_items source_id (some (list items)) = ok items
as_items source_id _ = err (inputs_not_a_list source_id)

abbrev pub expected : Mode → ℕ
expected mono = 1
expected stereo = 2

-- `any(type(value) is not int for value in inputs)` with the integers themselves.
unfoldable pub integers : List Item → Option (List ℤ)
integers [] = some []
integers (int n ∷ rest) = elim (integers rest) [ none ↦ none | some ns ↦ some (n ∷ ns) ]
integers (other ∷ rest) = none

abbrev pub as_integers : Text → Option (List ℤ) → Checked (List ℤ)
as_integers source_id (some ns) = ok ns
as_integers source_id none = err (not_integers source_id)

-- `any(value not in PHYSICAL_INPUTS for value in inputs)` with the numbers themselves.
unfoldable pub physical : List ℤ → Option (List ℕ)
physical [] = some []
physical (pos n ∷ rest) = elim (physical rest) [
  | none ↦ none
  | some ns ↦ if leb 1 n && leb n 16 then some (n ∷ ns) else none
]
physical (negsuc n ∷ rest) = none

abbrev pub as_physical : Text → Option (List ℕ) → Checked (List ℕ)
as_physical source_id (some ns) = ok ns
as_physical source_id none = err (out_of_range source_id)

-- `n in ns`
unfoldable pub member : ℕ → List ℕ → Bool
member n [] = false
member n (m ∷ ms) = n == m || member n ms

-- `len(set(inputs)) == len(inputs)`
unfoldable pub unique : List ℕ → Bool
unique [] = true
unique (n ∷ ns) = not (member n ns) && unique ns

-- One round of the loop over the entries, up to the updates of `used` and `result`.
unfoldable pub check_entry : List Text → ℕ → List Text → Raw → Checked Source
check_entry groups position ids other = err (not_an_object position)
check_entry groups position ids (mapping m) = do
  raise_if (not (length (unknown m) == 0)) (unknown_fields position (sorted_texts (unknown m)))
  raise_if (not (length (missing required m) == 0))
      (missing_fields position (sorted_texts (missing required m)))
  source_id ← as_text (empty_text position id) (lookup (key id) m)
  source_name ← as_text (empty_text position name) (lookup (key name) m)
  mode_text ← as_text (empty_text position mode) (lookup (key mode) m)
  source_mode ← as_mode source_id mode_text (mode_of mode_text)
  raise_if (contains ids source_id) (duplicate_id source_id)
  items ← as_items source_id (lookup (key inputs) m)
  raise_if (not (length items == expected source_mode)) (wrong_count source_id source_mode)
  ns ← as_integers source_id (integers items)
  numbers ← as_physical source_id (physical ns)
  raise_if (not (unique numbers)) (not_unique source_id)
  source_group ← as_text (empty_group source_id) (lookup (key group) m)
  raise_if (not (contains groups source_group)) (no_such_group source_id source_group)
  ok (record {
    id = source_id;
    name = source_name;
    mode = source_mode;
    inputs = numbers;
    group = source_group;
  })

-- The loop: the sources of the entries from a position on, given the ids before it.
unfoldable pub check_entries : List Text → ℕ → List Text → List Raw → Checked (List Source)
check_entries groups position ids [] = ok []
check_entries groups position ids (raw ∷ rest) = do
  source ← check_entry groups position ids raw
  sources ← check_entries groups (suc position) (source.id ∷ ids) rest
  ok (source ∷ sources)

-- `used`: the inputs of all sources, in order.
unfoldable pub used : List Source → List ℕ
used [] = []
used (s ∷ ss) = s.inputs ++ used ss

-- `sorted(PHYSICAL_INPUTS - set(used))` and `value for value in set(used) if count > 1`, over the
-- inputs 1..n from the top.
unfoldable pub uncovered : ℕ → List ℕ → List ℕ
uncovered zero ns = []
uncovered (suc n) ns = uncovered n ns ++ (if member (suc n) ns then [] else suc n ∷ [])

-- `used.count(value)`
unfoldable pub count : ℕ → List ℕ → ℕ
count n [] = 0
count n (m ∷ ms) = if n == m then suc (count n ms) else count n ms

unfoldable pub repeated : ℕ → List ℕ → List ℕ
repeated zero ns = []
repeated (suc n) ns = repeated n ns ++ (if ltb 1 (count (suc n) ns) then suc n ∷ [] else [])

-- `set(used) == PHYSICAL_INPUTS`, where every member of `used` has been checked to be one.
unfoldable pub covers : List ℕ → Bool
covers ns = length (uncovered 16 ns) == 0

unfoldable pub check_cover : List Source → Checked (List Source)
check_cover sources =
    if not (covers (used sources)) || not (length (used sources) == 16)
    then err (not_covered (uncovered 16 (used sources)) (repeated 16 (used sources)))
    else ok sources

abbrev pub as_list : Entries → Checked (List Raw)
as_list (list raws) = ok raws
as_list other = err not_a_list

unfoldable pub validate_source_map : Entries → List Text → Text → Checked (List Source)
validate_source_map entries groups version = do
  raise_if (not (same version (codes "1"))) bad_version
  raise_if (length groups == 0) no_groups
  raws ← as_list entries
  sources ← check_entries groups 1 [] raws
  check_cover sources

abbrev pub mode_text : Mode → Text
mode_text mono = codes "mono"
mode_text stereo = codes "stereo"

abbrev pub as_item : List ℕ → List Item
as_item [] = []
as_item (n ∷ ns) = int (pos n) ∷ as_item ns

-- `Source.snapshot`
unfoldable pub snapshot : Source → Raw
snapshot s = mapping (
    (key id, text s.id)
    ∷ (key name, text s.name)
    ∷ (key mode, text (mode_text s.mode))
    ∷ (key inputs, list (as_item s.inputs))
    ∷ (key group, text s.group)
    ∷ [])

unfoldable pub snapshots : List Source → List Raw
snapshots [] = []
snapshots (s ∷ ss) = snapshot s ∷ snapshots ss

-- `{entry["group"] for entry in entries}`
unfoldable pub groups_of : List Source → List Text
groups_of [] = []
groups_of (s ∷ ss) = s.group ∷ groups_of ss

-- `source_map_snapshot` of a tuple of sources: the entries that it returns with the version.
unfoldable pub source_map_snapshot : List Source → Text → Checked (List Raw)
source_map_snapshot sources version =
    validate_source_map (list (snapshots sources)) (groups_of sources) version >>= λ checked.
    ok (snapshots checked)
