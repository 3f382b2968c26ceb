-- ===== src/Manager/Tests.antt =====
-- A recording on a disk with room for it, and the theorems on it.
use sc_adat_appliance.Base.{
  ℕ, ◌+◌, ◌-◌, zero, suc, ◌≡◌, ◌≢◌, refl, true, false, none, some, List, [], ◌∷◌, arith, All,
}
use sc_adat_appliance.Base.Int.{pos}
use sc_adat_appliance.Base.Bytes.{same}
use sc_adat_appliance.Base.Text.{
  Text, codes, strip, strip_left, strip_right, is_space, contains, decimal,
}
use sc_adat_appliance.Base.Number.{int_of_text, digits}
use sc_adat_appliance.Base.Result.{ok, err}
use sc_adat_appliance.Base.Sealed.{◌>>=◌, ◌>>◌, raise_if}
use sc_adat_appliance.SourceMap
use sc_adat_appliance.SourceMap.{
  Mode, Source, Raw, mono, stereo, validate_source_map, check_entry, check_entries, check_cover,
  covers, uncovered, count, member, used, unique, physical, integers, mode_of, lookup, unknown,
  missing, snapshot, snapshots,
}
use sc_adat_appliance.SourceMap.Sound.{validate_source_map-IsMap}
use sc_adat_appliance.Recorder.{
  Target, required_start_bytes, required_ready_bytes, bytes_per_second, validate_target,
}
use sc_adat_appliance.Manager.{
  Manager, fresh, State, Settings, Probe, Mount, MidiEnd, FileRead, segment_setting,
  reserve_setting, ready_setting, ready_capacity, integer_setting, target,
}
use sc_adat_appliance.Manager.Status.{
  status, poll_midi, read_active, last_part, while_idle, check_mount, while_running,
}
use sc_adat_appliance.Manager.Plan.{Track, track_plan, source_tracks, safe_name, safe_from}
use sc_adat_appliance.Manager.Plan.Cover.{taken, Adjacent, track_plan-once}
use sc_adat_appliance.Manager.Start.{
  Request, Launch, MidiStart, StartError, start, with_status, launched, kill_fails,
}
use sc_adat_appliance.Manager.Safety.{Fits, start-ok}
use sc_adat_appliance.Manager.Process.{start_error}
use sc_adat_appliance.Manager.Exit.{status_ends}

abbrev groups : List Text
groups = codes "all" ∷ []

abbrev pair : Source
pair = record {
  id = codes "over heads";
  name = codes "Overheads";
  mode = stereo;
  inputs = 1 ∷ 2 ∷ [];
  group = codes "all";
}

abbrev single : ℕ → Source
single n = record {
  id = decimal n;
  name = codes "In";
  mode = mono;
  inputs = n ∷ [];
  group = codes "all";
}

abbrev singles : ℕ → ℕ → List Source
singles zero n = []
singles (suc k) n = single n ∷ singles k (n + 1)

abbrev sources : List Source
sources = pair ∷ singles 14 3

abbrev proposal : SourceMap.Entries
proposal = SourceMap.Entries.list (unfold snapshots in snapshots sources)

accepted : validate_source_map proposal groups (codes "1") ≡ ok sources
unfolding validate_source_map check_entries check_entry snapshots snapshot lookup unknown missing
    contains same strip strip_left strip_right is_space mode_of integers physical unique member
    check_cover covers uncovered used decimal ◌>>=◌ ◌>>◌ raise_if
accepted = refl

abbrev track : ℕ → Track
track n = record { name = decimal n; channels = 1; first = n - 1 }

abbrev tracks : List Track
tracks =
    record { name = codes "over_heads"; channels = 2; first = 0 }
    ∷ track 3
    ∷ track 4
    ∷ track 5
    ∷ track 6
    ∷ track 7
    ∷ track 8
    ∷ track 9
    ∷ track 10
    ∷ track 11
    ∷ track 12
    ∷ track 13
    ∷ track 14
    ∷ track 15
    ∷ track 16
    ∷ record { name = codes "sync"; channels = 1; first = 16 }
    ∷ record { name = codes "master"; channels = 2; first = 17 }
    ∷ []

planned : track_plan sources ≡ ok tracks
unfolding track_plan source_tracks safe_name safe_from contains same decimal
planned = refl

singles-Adjacent : (k n : ℕ) → All Adjacent (singles k n)
singles-Adjacent zero n = tt
singles-Adjacent (suc k) n = (refl, singles-Adjacent k (n + 1))

track_plan-once_example : count 18 (taken tracks) ≡ 1
track_plan-once_example =
    track_plan-once groups sources tracks 18
      (validate_source_map-IsMap proposal groups (codes "1") sources accepted)
      (refl, singles-Adjacent 14 3) planned (omega arith) (omega arith)

abbrev settings : Settings
settings = record {
  segment_seconds = some (codes "600");
  reserve_bytes = none;
  ready_seconds = some (codes "3600");
}

abbrev disk : Mount
disk = record {
  path = codes "/recordings";
  expected_uuid = codes "a1";
  mounted_uuid = codes "a1";
  filesystem = codes "ext4";
  is_mount = true;
  accessible = true;
  readonly = false;
}

abbrev quiet : Probe
quiet = record {
  midi_poll = none;
  active_file = FileRead.missing;
  first_poll = none;
  exit_file = FileRead.missing;
  midi_end = MidiEnd.raises;
  metadata_written = true;
  second_poll = none;
  now = 90000000000;
  mount = disk;
  free = some 100000000000;
  last_poll = none;
  usr1_sent = true;
}

abbrev request : Launch → Request
request outcome = record {
  sources = sources;
  launch = true;
  probe = quiet;
  mount = disk;
  free = some 100000000000;
  files_written = true;
  outcome = outcome;
  now = 90200000000;
  midi_start = MidiStart.no_port;
}

started : (start settings (request Launch.connected) fresh).result ≡ ok tracks
unfolding start with_status launched segment_setting reserve_setting ready_setting integer_setting
    status last_part read_active poll_midi while_idle check_mount target validate_target
    ready_capacity required_start_bytes required_ready_bytes bytes_per_second same int_of_text
    digits strip strip_left strip_right is_space track_plan source_tracks safe_name safe_from
    contains decimal
started = refl

start-ok_example :
    (target disk ≡ Target.ready)
    × ((status settings quiet fresh).manager.process ≡ false)
    × Fits (ready_setting settings) (reserve_setting settings) (some 100000000000)
    × (track_plan sources ≡ ok tracks)
    × ((start settings (request Launch.connected) fresh).manager.process ≡ true)
    × ((start settings (request Launch.connected) fresh).manager.state ≡ State.recording)
start-ok_example = start-ok settings (request Launch.connected) fresh tracks refl started

-- A recorder that runs already.
abbrev running : Manager
running = record fresh { process = true; session = true; state = State.recording }

refused : (start settings (request Launch.connected) running).result ≡ err StartError.already_active
unfolding start with_status segment_setting reserve_setting ready_setting integer_setting status
    last_part read_active poll_midi while_running check_mount target validate_target ready_capacity
    required_start_bytes required_ready_bytes bytes_per_second same int_of_text digits strip
    strip_left strip_right is_space
refused = refl

still_runs : (start settings (request Launch.connected) running).manager.process ≡ true
unfolding start with_status segment_setting reserve_setting ready_setting integer_setting status
    last_part read_active poll_midi while_running check_mount target validate_target ready_capacity
    required_start_bytes required_ready_bytes bytes_per_second same int_of_text digits strip
    strip_left strip_right is_space
still_runs = refl

not_kill : StartError.already_active ≢ kill_fails
not_kill = λ h. cc h

start_error_example : running.process ≡ true
start_error_example =
    start_error settings (request Launch.connected) running StartError.already_active refused
      not_kill still_runs

abbrev exited : Probe
exited = record quiet {
  first_poll = some (pos 0);
  exit_file = FileRead.lines (codes "state=STOPPED" ∷ codes "dropped_frames=0" ∷ []);
}

can_read : exited.exit_file ≢ FileRead.unreadable
can_read = λ h. cc h

status_ends_example :
    ((status settings exited running).manager.process ≡ false)
    × ((status settings exited running).raised ≡ false)
status_ends_example = status_ends settings exited running (pos 0) refl refl can_read

abbrev unplugged : Probe
unplugged = record quiet { mount = record disk { mounted_uuid = [] } }

is_lost : target unplugged.mount ≡ Target.no_recording_disk
unfolding target validate_target same
is_lost = refl
