-- ===== src/Mapping.antt =====
-- The mapping edits of mixer/mixerctl.py: `_runtime_source_entries` and `propose_mapping`.
pub mod Cover
pub mod State
mod Tests
use sc_adat_appliance.Base.{
  ℕ, ◌+◌, zero, suc, not, Bool, true, false, ◌&&◌, ◌||◌, Option, none, some, List, [], ◌∷◌, ◌++◌,
  ltb, leb, ◌==◌, if◌then◌else◌,
}
use sc_adat_appliance.Base.Text.{Text, codes, decimal}
use sc_adat_appliance.Base.Int.{ℤ, pos, negsuc}
use sc_adat_appliance.Base.Result.{Result, ok, err}
use sc_adat_appliance.Base.Sealed.{raise_if, ◌>>=◌, ◌>>◌}
use sc_adat_appliance.SourceMap
use sc_adat_appliance.SourceMap.{
  Mode, mono, stereo, Source, MapError, Checked, member, snapshots, validate_source_map,
}

-- `no_source` is the `StopIteration` of `next`, `key_error` a missing key of `current`.
pub data EditError : Type 0 where
  no_source key_error bad_physical own_partner bad_partner already_paired : EditError
  not_a_map : MapError → EditError

-- `next(source for source in values["_sources"] if physical in source.inputs)`
unfoldable pub first_with : ℕ → List Source → Option Source
first_with n [] = none
first_with n (s ∷ ss) = if member n s.inputs then some s else first_with n ss

-- `current[number]`: in the dictionary, later sources replace earlier ones.
unfoldable pub current : ℕ → List Source → Option Source
current n [] = none
current n (s ∷ ss) = elim (current n ss) [
  | some t ↦ some t
  | none ↦ if member n s.inputs then some s else none
]

abbrev pub or_key_error : Option Source → Result EditError Source
or_key_error none = err key_error
or_key_error (some s) = ok s

abbrev pub head_or_0 : List ℕ → ℕ
head_or_0 [] = 0
head_or_0 (n ∷ ns) = n

abbrev pub or_own : Source → Option Source → Source
or_own s none = s
or_own s (some t) = t

-- The entry of an input that stays, by the mode of its source. The input is one of the source's,
-- so `current` has it.
abbrev pub stays : Mode → List Source → Source → ℕ → Source
stays stereo sources source number = record {
  id = source.id ++ b'_' ∷ decimal number;
  name = source.name ++ (if number == head_or_0 (source.inputs) then codes " L" else codes " R");
  mode = mono;
  inputs = number ∷ [];
  group = (or_own source (current number sources)).group;
}
stays mono sources source number =
    let own = or_own source (current number sources) in
    record { id = own.id; name = own.name; mode = mono; inputs = number ∷ []; group = own.group }

-- `for number in remaining`
unfoldable pub split : List ℕ → List Source → Source → List ℕ → List Source
split affected sources source [] = []
split affected sources source (number ∷ rest) =
    let later = split affected sources source rest in
    if member number affected then later else stays (source.mode) sources source number ∷ later

-- `for source in values["_sources"]`
unfoldable pub remaining : List ℕ → List Source → List Source → List Source
remaining affected sources [] = []
remaining affected sources (s ∷ ss) =
    split affected sources s (s.inputs) ++ remaining affected sources ss

-- `sorted(entries, key=lambda entry: entry["inputs"][0])`, stable.
unfoldable pub insert : Source → List Source → List Source
insert e [] = e ∷ []
insert e (f ∷ fs) =
    let later = insert e fs in
    if ltb (head_or_0 (f.inputs)) (head_or_0 (e.inputs)) then f ∷ later else e ∷ f ∷ fs

unfoldable pub sorted : List Source → List Source
sorted [] = []
sorted (e ∷ es) = insert e (sorted es)

abbrev pub group_or : Option Text → Text → Text
group_or none t = t
group_or (some t) _ = t

-- The partner, 0 for none, after the two checks on it.
unfoldable pub checked_partner : ℕ → ℤ → Result EditError ℕ
checked_partner physical (negsuc n) = err bad_partner
checked_partner physical (pos n) =
    if n == physical then err own_partner else if not (leb n 16) then err bad_partner else ok n

-- `current[partner].mode == "stereo" and physical not in current[partner].inputs`
abbrev pub paired_elsewhere : ℕ → Mode → List ℕ → Bool
paired_elsewhere physical mono inputs = false
paired_elsewhere physical stereo inputs = not (member physical inputs)

-- The edit without a partner, and with one.
unfoldable pub unpair : List Source → ℕ → Option Text → Result EditError (List Source)
unpair sources physical group = do
  source ← or_key_error (current physical sources)
  ok (
      sorted (
        remaining (physical ∷ []) sources sources
        ++ record {
          id = source.id;
          name = source.name;
          mode = mono;
          inputs = physical ∷ [];
          group = group_or group (source.group);
        }
          ∷ []))

unfoldable pub pair : List Source → ℕ → ℕ → Option Text → Result EditError (List Source)
pair sources physical partner group = do
  right ← or_key_error (current partner sources)
  raise_if (paired_elsewhere physical (right.mode) (right.inputs)) already_paired
  left ← or_key_error (current physical sources)
  ok (
      sorted (
        remaining (physical ∷ partner ∷ []) sources sources
        ++ record {
          id = left.id;
          name = left.name ++ codes " / " ++ right.name;
          mode = stereo;
          inputs = physical ∷ partner ∷ [];
          group = group_or group (left.group);
        }
          ∷ []))

unfoldable pub runtime_source_entries :
    List Source → ℕ → ℤ → Option Text → Result EditError (List Source)
runtime_source_entries sources physical partner group = do
  raise_if (not (leb 1 physical && leb physical 16)) bad_physical
  other ← checked_partner physical partner
  if other == 0 then unpair sources physical group else pair sources physical other group

-- The partner that stays when none is named.
abbrev pub own_partner_of : ℕ → Mode → List ℕ → ℕ
own_partner_of physical stereo (left ∷ right ∷ rest) = if physical == left then right else left
own_partner_of physical _ _ = 0

abbrev pub partner_or : ℕ → Source → Option ℤ → ℤ
partner_or physical source none = pos (own_partner_of physical (source.mode) (source.inputs))
partner_or physical source (some n) = n

abbrev pub as_edit : {A : Type 0} → Checked A → Result EditError A
as_edit (ok a) = ok a
as_edit (err e) = err (not_a_map e)

abbrev pub found : Option Source → Result EditError Source
found none = err no_source
found (some s) = ok s

-- Over the mixer's groups and the version of the configuration.
unfoldable pub propose_mapping :
    List Text → Text → List Source → ℕ → Option ℤ → Option Text → Result EditError (List Source)
propose_mapping groups version sources physical partner group = do
  source ← found (first_with physical sources)
  entries ← runtime_source_entries sources physical (partner_or physical source partner) group
  as_edit (validate_source_map (SourceMap.Entries.list (snapshots entries)) groups version)
