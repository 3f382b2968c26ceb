-- ===== src/Manager/Start.antt =====
-- mixer/recorder_manager.py: `start`, `stop`, `remaining_seconds` and `control_state`.
use sc_adat_appliance.Base.{
  ℕ, ◌-◌, ◌/◌, Bool, true, false, not, ◌&&◌, ◌||◌, Option, none, some, List, [], ◌∷◌, ltb, ◌==◌,
  if◌then◌else◌,
}
use sc_adat_appliance.Base.Int.{ℤ, pos, negsuc}
use sc_adat_appliance.Base.Result.{Result, ok, err}
use sc_adat_appliance.Recorder.{required_start_bytes, bytes_per_second, channels}
use sc_adat_appliance.SourceMap.{Source}
use sc_adat_appliance.Manager
use sc_adat_appliance.Manager.{
  Manager, State, Settings, SettingError, Probe, Mount, Left, Signal, MidiEnd, Problem,
  segment_setting, reserve_setting, ready_setting, target, disk_unavailable,
}
use sc_adat_appliance.Manager.Status.{
  is_ready, status, stop_midi, request_disk_lost, is_disk_lost, is_problem,
}
use sc_adat_appliance.Manager.Plan.{PlanError, Track, track_plan}

-- How the native recorder comes up: no process, an exit during startup, a JACK connection that
-- fails, or all well. A process that did not come up is killed, which is confirmed or times out.
pub data Launch : Type 0 where
  no_process connected : Launch
  exits_early connection_fails : Bool → Launch

-- How the optional MIDI recorder comes up.
pub data MidiStart : Type 0 where
  no_port midi_runs midi_raises : MidiStart
  midi_exits : ℤ → MidiStart

pub record Request : Type 0 where
  pub sources : List Source
  pub launch : Bool
  pub probe : Probe
  pub mount : Mount
  pub free : Option ℕ
  pub files_written : Bool
  pub outcome : Launch
  pub now : ℕ
  pub midi_start : MidiStart

pub data StartError : Type 0 where
  setting : SettingError → StartError
  plan : PlanError → StartError
  status_raises already_active no_disk insufficient files launch_fails kill_fails : StartError

-- The result, the signals that `status` sent, and the object.
pub record Started : Type 0 where
  pub result : Result StartError (List Track)
  pub signals : List Signal
  pub manager : Manager

abbrev pub fails : StartError → List Signal → Manager → Started
fails e signals m = record { result = err e; signals = signals; manager = m }

abbrev pub is_active : State → Bool
is_active State.recording = true
is_active State.final_segment = true
is_active s = false

abbrev pub midi_after : MidiStart → Manager → Manager
midi_after no_port m = m
midi_after midi_runs m = record m { midi = true; midi_status = Manager.MidiStatus.recording }
midi_after midi_raises m = record m { midi = false; midi_status = Manager.MidiStatus.unavailable }
midi_after (midi_exits code) m = record m {
  midi = false;
  midi_status = Manager.MidiStatus.unavailable_exit code;
}

-- The handler of a launch that failed, once a process is there.
abbrev pub killed : Bool → List Signal → Manager → Started
killed true signals m =
    fails launch_fails signals (record m { process = false; state = State.failed })
killed false signals m = fails kill_fails signals (record m { process = true })

-- The recorder's process, from a session whose files are written.
unfoldable pub launched : Launch → ℕ → MidiStart → List Track → List Signal → Manager → Started
launched no_process now midi tracks signals m =
    fails launch_fails signals (record m { process = false; state = State.failed })
launched (exits_early reaped) now midi tracks signals m = killed reaped signals m
launched (connection_fails reaped) now midi tracks signals m = killed reaped signals m
launched connected now midi tracks signals m = record {
  result = ok tracks;
  signals = signals;
  manager = midi_after midi (record m {
    process = true;
    state = State.recording;
    last_ok = true;
    last_check = now;
    started = some now;
  });
}

abbrev pub with_plan : Request → Result PlanError (List Track) → List Signal → Manager → Started
with_plan r (err e) signals m = fails (plan e) signals m
with_plan r (ok tracks) signals m =
    if not r.files_written
    then fails files signals m
    else if not r.launch
    then record {
      result = ok tracks;
      signals = signals;
      manager = record m { session = true; state = State.ready };
    }
    else launched (r.outcome) (r.now) (r.midi_start) tracks signals (record m { session = true })

abbrev pub with_space : Request → ℕ → Option ℕ → List Signal → Manager → Started
with_space r required none signals m =
    fails no_disk signals (record m { state = State.no_recording_disk })
with_space r required (some free) signals m =
    if ltb free required
    then fails insufficient signals (record m { state = State.low_space })
    else with_plan r (track_plan (r.sources)) signals m

-- From the status on.
unfoldable pub with_status : Request → ℕ → Left → Started
with_status r required left =
    if left.raised
    then fails status_raises (left.signals) (left.manager)
    else if left.manager.process || is_active left.manager.state
    then fails already_active (left.signals) (left.manager)
    else if not (is_ready (target (r.mount)))
    then fails no_disk (left.signals) (record (left.manager) { state = State.no_recording_disk })
    else with_space r required (r.free) (left.signals) (left.manager)

abbrev pub with_settings :
    Settings
    → Request
    → Result SettingError ℕ
    → Result SettingError ℕ
    → Result SettingError ℕ
    → Manager
    → Started
with_settings c r (err e) _ _ m = fails (setting e) [] m
with_settings c r (ok segment) (err e) _ m = fails (setting e) [] m
with_settings c r (ok segment) (ok reserve) (err e) m = fails (setting e) [] m
with_settings c r (ok segment) (ok reserve) (ok seconds) m =
    with_status r (required_start_bytes 48000 channels 24 seconds reserve) (status c (r.probe) m)

unfoldable pub start : Settings → Request → Manager → Started
start c r m = with_settings c r (segment_setting c) (reserve_setting c) (ready_setting c) m

unfoldable pub stop : Settings → Probe → Manager → Left
stop c p m =
    let m1 = stop_midi (p.midi_end) m in
    if not m1.process
    then status c p m1
    else if is_disk_lost m1.state
    then request_disk_lost (if is_problem m1.error then m1.error else disk_unavailable)
        (p.last_poll) (p.usr1_sent) m1
    else record {
      raised = false;
      signals = Signal.terminate ∷ [];
      manager = record m1 { state = State.final_segment };
    }

-- The quotient is exact for the free space of any disk below 2 ^ 50 bytes, where Python divides
-- floats.
abbrev pub remaining : Result SettingError ℕ → ℕ → Result SettingError ℕ
remaining (err e) free = err e
remaining (ok reserve) free = ok ((free - reserve) / bytes_per_second 48000 channels 24)

unfoldable pub remaining_seconds : Settings → ℕ → Result SettingError ℕ
remaining_seconds c free = remaining (reserve_setting c) free

-- What `control_state` asks the system besides `status`: `none` where it raises.
pub record View : Type 0 where
  pub probe : Probe
  pub is_mount : Option Bool
  pub same_device : Option Bool
  pub free : Option ℕ
  pub now : ℕ
  pub last_segment : Option ℕ

pub record Control : Type 0 where
  pub state : State
  pub elapsed : ℕ
  pub segment : ℤ
  pub remaining_time : Result SettingError ℕ
  pub free : ℕ
  pub dropped : ℤ
  pub error : Problem

abbrev pub is_yes : Option Bool → Bool
is_yes none = false
is_yes (some b) = b

abbrev pub or_zero : Option ℕ → ℕ
or_zero none = 0
or_zero (some n) = n

abbrev pub seconds_since : Option ℕ → ℕ → ℕ
seconds_since none now = 0
seconds_since (some t) now = if t == 0 then 0 else (now - t) / 1000000000

abbrev pub segment_number : Bool → Option ℕ → ℤ
segment_number true (some n) = pos n
segment_number _ _ = negsuc 0

abbrev pub shown : Settings → View → Manager → Control
shown c v m =
    let free =
      (if m.last_ok && is_yes (v.is_mount) && (not m.session || is_yes (v.same_device))
        then or_zero (v.free)
        else 0) in
    record {
      state = m.state;
      elapsed = seconds_since (m.started) (v.now);
      segment = segment_number (m.session) (v.last_segment);
      remaining_time = remaining_seconds c free;
      free = free;
      dropped = m.dropped;
      error = m.error;
    }

-- The control state, where `status` does not raise, and the object.
unfoldable pub control_state : Settings → View → Manager → Control × Left
control_state c v m = let left = status c (v.probe) m in (shown c v (left.manager), left)
