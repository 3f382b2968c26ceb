-- ===== src/Mapping/State.antt =====
-- mixer/mixerctl.py: `mapping_state`, the mapping of each physical input as clients see it.
pub mod Found
pub mod Pairing
use sc_adat_appliance.Base.{
  ℕ, ◌+◌, zero, suc, Bool, true, false, Option, none, some, List, [], ◌∷◌, ◌==◌, if◌then◌else◌,
}
use sc_adat_appliance.Base.Bytes.{same}
use sc_adat_appliance.Base.Text.{Text}
use sc_adat_appliance.Base.Result.{Result, ok, err}
use sc_adat_appliance.SourceMap.{Mode, mono, stereo, Source}
use sc_adat_appliance.Mapping.{first_with, head_or_0, own_partner_of}

-- The values inputNGroup, inputNPartner, inputNMode and inputNOrientation.
pub record Row : Type 0 where
  pub group : ℕ
  pub partner : ℕ
  pub mode : ℕ
  pub orientation : ℕ

pub data StateError : Type 0 where
  no_source no_group : StateError

-- `GROUPS.index(group)`
unfoldable pub group_index : Text → List Text → Option ℕ
group_index t [] = none
group_index t (g ∷ gs) =
    let later = group_index t gs in
    if same g t then some 0 else elim later [ none ↦ none | some n ↦ some (suc n) ]

abbrev pub mode_value : Mode → ℕ
mode_value mono = 0
mode_value stereo = 1

abbrev pub orientation_of : ℕ → Mode → List ℕ → ℕ
orientation_of physical mono inputs = 0
orientation_of physical stereo inputs = if physical == head_or_0 inputs then 1 else 2

abbrev pub row_in : ℕ → Source → Option ℕ → Result StateError Row
row_in physical s none = err no_group
row_in physical s (some g) = ok (record {
  group = g;
  partner = own_partner_of physical s.mode s.inputs;
  mode = mode_value s.mode;
  orientation = orientation_of physical s.mode s.inputs;
})

abbrev pub row_of : List Text → ℕ → Option Source → Result StateError Row
row_of groups physical none = err no_source
row_of groups physical (some s) = row_in physical s (group_index s.group groups)

abbrev pub and_row :
    Result StateError Row → Result StateError (List Row) → Result StateError (List Row)
and_row (err e) later = err e
and_row (ok r) (ok rs) = ok (r ∷ rs)
and_row (ok r) (err e) = err e

-- `for physical in range(1, 17)`, from an input on.
unfoldable pub rows_from : List Text → List Source → ℕ → ℕ → Result StateError (List Row)
rows_from groups sources zero physical = ok []
rows_from groups sources (suc rounds) physical =
    let later = rows_from groups sources rounds (suc physical) in
    and_row (row_of groups physical (first_with physical sources)) later

unfoldable pub mapping_state : List Text → List Source → Result StateError (List Row)
mapping_state groups sources = rows_from groups sources 16 1
