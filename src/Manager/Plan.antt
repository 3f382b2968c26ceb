-- ===== src/Manager/Plan.antt =====
-- The track plan that `start` of mixer/recorder_manager.py writes for the native recorder.
pub mod Cover
use sc_adat_appliance.Base.{
  ℕ, ◌+◌, ◌-◌, zero, suc, Bool, true, false, not, ◌&&◌, ◌||◌, Option, none, some, List, [], ◌∷◌,
  ◌++◌, leb, ◌==◌, length, if◌then◌else◌,
}
use sc_adat_appliance.Base.Result.{Result, ok, err}
use sc_adat_appliance.Base.Text.{Text, codes, contains}
use sc_adat_appliance.SourceMap.{Source}

-- `[A-Za-z0-9_.-]`
abbrev pub is_safe : ℕ → Bool
is_safe c =
    leb b'A' c && leb c b'Z'
    || leb b'a' c && leb c b'z'
    || leb b'0' c && leb c b'9'
    || c == b'_'
    || c == b'.'
    || c == b'-'

-- `re.sub(r"[^A-Za-z0-9_.-]+", "_", id)`; `run` says that the character before was replaced.
unfoldable pub safe_from : Bool → Text → Text
safe_from run [] = []
safe_from run (c ∷ cs) =
    let kept = safe_from false cs in
    let replaced = safe_from true cs in
    if is_safe c then c ∷ kept else if run then replaced else b'_' ∷ replaced

unfoldable pub safe_name : Text → Text
safe_name id = safe_from false id

-- A line of tracks.tsv: file name, channels, and the first JACK input from zero.
pub record Track : Type 0 where
  pub name : Text
  pub channels : ℕ
  pub first : ℕ

abbrev pub first_input : List ℕ → ℕ
first_input [] = 0
first_input (n ∷ ns) = n

abbrev pub track_of : Source → Track
track_of s = record {
  name = safe_name s.id;
  channels = length s.inputs;
  first = first_input s.inputs - 1;
}

pub data PlanError : Type 0 where
  names_collide : PlanError

abbrev pub and_track : Track → Result PlanError (List Track) → Result PlanError (List Track)
and_track t (ok ts) = ok (t ∷ ts)
and_track t (err e) = err e

-- The loop over the sources, given the names before.
unfoldable pub source_tracks : List Text → List Source → Result PlanError (List Track)
source_tracks names [] = ok []
source_tracks names (s ∷ ss) =
    let rest = source_tracks (safe_name s.id ∷ names) ss in
    if contains names (safe_name s.id) then err names_collide else and_track (track_of s) rest

-- "sync 1 16" and "master 2 17"
abbrev pub fixed_tracks : List Track
fixed_tracks =
    record { name = codes "sync"; channels = 1; first = 16 }
    ∷ record { name = codes "master"; channels = 2; first = 17 }
    ∷ []

abbrev pub with_fixed : Result PlanError (List Track) → Result PlanError (List Track)
with_fixed (ok ts) = ok (ts ++ fixed_tracks)
with_fixed (err e) = err e

unfoldable pub track_plan : List Source → Result PlanError (List Track)
track_plan sources = with_fixed (source_tracks [] sources)
