-- ===== src/Manager.antt =====
-- mixer/recorder_manager.py: the state of `RecorderManager` and `status`. What the calls of the
-- operating system answer is an input of each method. Times are nanoseconds.
pub mod Status
pub mod Plan
pub mod Start
pub mod Safety
pub mod Process
pub mod Exit
mod Tests
use sc_adat_appliance.Base.{
  ℕ, ◌+◌, ◌-◌, ◌^◌, zero, suc, Bool, true, false, not, ◌&&◌, ◌||◌, Option, none, some, List, [],
  ◌∷◌, ltb, leb, ◌==◌, if◌then◌else◌,
}
use sc_adat_appliance.Base.Bytes.{same}
use sc_adat_appliance.Base.Int.{ℤ, pos, negsuc}
use sc_adat_appliance.Base.Number.{int_of_text}
use sc_adat_appliance.Base.Result.{Result, ok, err}
use sc_adat_appliance.Base.Text.{Text, codes, strip}
use sc_adat_appliance.Recorder
use sc_adat_appliance.Recorder.{Target, required_start_bytes, validate_target, channels}

-- The texts of `state`; the recorder's status file may hold any other.
pub data State : Type 0 where
  no_recording_disk idle ready recording low_space final_segment stopped : State
  stopped_full disk_lost failed : State
  other : Text → State

unfoldable pub state_of : Text → State
state_of t =
    if same t (codes "FINAL_SEGMENT")
    then final_segment
    else if same t (codes "STOPPED_FULL")
    then stopped_full
    else if same t (codes "DISK_LOST")
    then disk_lost
    else if same t (codes "FAILED")
    then failed
    else if same t (codes "STOPPED")
    then stopped
    else if same t (codes "RECORDING")
    then recording
    else if same t (codes "LOW_SPACE")
    then low_space
    else if same t (codes "READY")
    then ready
    else if same t (codes "IDLE")
    then idle
    else if same t (codes "NO_RECORDING_DISK")
    then no_recording_disk
    else other t

-- The texts of `error`, without the text of an exception.
pub data Problem : Type 0 where
  no_problem overflow_recorded unreadable_status overflow io_failure disk_unavailable : Problem
  finalization_failed mount_changed mount_disappeared : Problem
  recorder_exited : ℤ → Problem
  metadata_failed : Problem → Problem

-- The texts of `midi_status`.
pub data MidiStatus : Type 0 where
  not_configured stopped recording stop_failed unavailable : MidiStatus
  stopped_exit failed_exit unavailable_exit : ℤ → MidiStatus

pub record Manager : Type 0 where
  pub process : Bool
  pub midi : Bool
  pub midi_status : MidiStatus
  pub session : Bool
  pub state : State
  pub error : Problem
  pub started : Option ℕ
  pub dropped : ℤ
  pub xruns : ℤ
  pub last_check : ℕ
  pub last_ok : Bool

-- `__init__`
abbrev pub fresh : Manager
fresh = record {
  process = false;
  midi = false;
  midi_status = not_configured;
  session = false;
  state = no_recording_disk;
  error = no_problem;
  started = none;
  dropped = pos 0;
  xruns = pos 0;
  last_check = 0;
  last_ok = false;
}

-- The values of the configuration, which are texts where they are there.
pub record Settings : Type 0 where
  pub segment_seconds : Option Text
  pub reserve_bytes : Option Text
  pub ready_seconds : Option Text

pub data SettingError : Type 0 where
  not_an_integer out_of_range : SettingError

abbrev pub in_bounds : ℕ → ℕ → Option ℤ → Result SettingError ℕ
in_bounds low high none = err not_an_integer
in_bounds low high (some (negsuc n)) = err out_of_range
in_bounds low high (some (pos n)) = if leb low n && leb n high then ok n else err out_of_range

abbrev pub or_value : ℕ → Option Text → Option ℤ
or_value d none = some (pos d)
or_value d (some t) = int_of_text t

-- `_integer_setting`
unfoldable pub integer_setting : Option Text → ℕ → ℕ → ℕ → Result SettingError ℕ
integer_setting value default minimum maximum = in_bounds minimum maximum (or_value default value)

unfoldable pub segment_setting : Settings → Result SettingError ℕ
segment_setting c = integer_setting c.segment_seconds 900 1 7200

unfoldable pub reserve_setting : Settings → Result SettingError ℕ
reserve_setting c = integer_setting c.reserve_bytes 5368709120 1 (2 ^ 63 - 1)

unfoldable pub ready_setting : Settings → Result SettingError ℕ
ready_setting c = integer_setting c.ready_seconds 7200 1 31536000

abbrev pub start_bytes : Result SettingError ℕ → Result SettingError ℕ → Result SettingError ℕ
start_bytes (ok seconds) (ok reserve) = ok (required_start_bytes 48000 channels 24 seconds reserve)
start_bytes (err e) _ = err e
start_bytes (ok seconds) (err e) = err e

-- `_ready_capacity`
unfoldable pub ready_capacity : Settings → Result SettingError ℕ
ready_capacity c = start_bytes (ready_setting c) (reserve_setting c)

-- What `_target` asks the system.
pub record Mount : Type 0 where
  pub path : Text
  pub expected_uuid : Text
  pub mounted_uuid : Text
  pub filesystem : Text
  pub is_mount : Bool
  pub accessible : Bool
  pub readonly : Bool

unfoldable pub target : Mount → Target
target t =
    validate_target t.path t.expected_uuid t.mounted_uuid
      (t.is_mount && t.accessible && not t.readonly) t.filesystem

-- A read of `recorder.status`.
pub data FileRead : Type 0 where
  missing unreadable : FileRead
  lines : List Text → FileRead

-- How the recorder is told that its disk is lost: SIGUSR1, or SIGTERM where that fails.
pub data Signal : Type 0 where
  usr1 terminate : Signal

-- How `_stop_midi` ends, by the exit code of the process or an exception.
pub data MidiEnd : Type 0 where
  exits : ℤ → MidiEnd
  raises : MidiEnd

pub record Probe : Type 0 where
  pub midi_poll : Option ℤ
  pub active_file : FileRead
  pub first_poll : Option ℤ
  pub exit_file : FileRead
  pub midi_end : MidiEnd
  pub metadata_written : Bool
  pub second_poll : Option ℤ
  pub now : ℕ
  pub mount : Mount
  pub free : Option ℕ
  pub last_poll : Option ℤ
  pub usr1_sent : Bool

-- Everything that a method leaves: whether it raises, what was sent, and the object.
pub record Left : Type 0 where
  pub raised : Bool
  pub signals : List Signal
  pub manager : Manager

abbrev pub returns : Manager → Left
returns m = record { raised = false; signals = []; manager = m }
