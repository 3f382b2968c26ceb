-- ===== src/Manager/Status.antt =====
-- `status` of mixer/recorder_manager.py, with what it calls.
use sc_adat_appliance.Base.{
  ℕ, ◌+◌, zero, Bool, true, false, not, ◌&&◌, Option, none, some, List, [], ◌∷◌, ltb, leb, ◌==◌,
  if◌then◌else◌,
}
use sc_adat_appliance.Base.Bytes.{same}
use sc_adat_appliance.Base.Int.{ℤ, pos, negsuc}
use sc_adat_appliance.Base.Number.{int_of_text}
use sc_adat_appliance.Base.Result.{Result, ok, err}
use sc_adat_appliance.Base.Text.{Text, codes}
use sc_adat_appliance.Recorder.{Target}
use sc_adat_appliance.Manager.{
  FileRead, Left, Manager, MidiEnd, MidiStatus, Mount, Probe, Problem, SettingError, Settings,
  Signal, State, disk_lost, disk_unavailable, exits, failed, failed_exit, final_segment,
  finalization_failed, idle, io_failure, lines, low_space, metadata_failed, missing, mount_changed,
  mount_disappeared, no_problem, no_recording_disk, overflow, overflow_recorded, raises, ready,
  ready_capacity, recorder_exited, returns, state_of, stop_failed, stopped_exit, stopped_full,
  target, terminate, unreadable, unreadable_status, usr1,
}

-- `line.split("=", 1)` of a line with "=".
unfoldable pub cut : Text → Option (Text × Text)
cut [] = none
cut (c ∷ cs) =
    let later = cut cs in
    if c == b'=' then some ([], cs) else elim later [ none ↦ none | some (k, v) ↦ some (c ∷ k, v) ]

-- `fields.get(name)` of the dictionary of the lines; a later line wins.
unfoldable pub field : Text → List Text → Option Text
field name [] = none
field name (line ∷ rest) = elim (field name rest) [
  | some v ↦ some v
  | none ↦ elim (cut line) [ none ↦ none | some (k, v) ↦ if same k name then some v else none ]
]

abbrev pub text_or : Text → Option Text → Text
text_or d none = d
text_or d (some t) = t

abbrev pub int_or : ℤ → Option Text → Option ℤ
int_or d none = some d
int_or d (some t) = int_of_text t

abbrev pub is_over : State → Bool
is_over final_segment = true
is_over stopped_full = true
is_over disk_lost = true
is_over failed = true
is_over s = false

abbrev pub is_zero : ℤ → Bool
is_zero (pos n) = n == 0
is_zero (negsuc n) = false

abbrev pub is_capturing : State → Bool
is_capturing State.recording = true
is_capturing low_space = true
is_capturing final_segment = true
is_capturing s = false

-- `_stop_midi`
abbrev pub midi_ended : MidiEnd → MidiStatus
midi_ended (exits (pos zero)) = MidiStatus.stopped
midi_ended (exits code) = stopped_exit code
midi_ended raises = stop_failed

unfoldable pub stop_midi : MidiEnd → Manager → Manager
stop_midi e m = if m.midi then record m { midi = false; midi_status = midi_ended e } else m

-- The first part of `status`: a MIDI process that has ended.
abbrev pub midi_polled : Option ℤ → Manager → Manager
midi_polled none m = m
midi_polled (some code) m = record m {
  midi = false;
  midi_status = if is_capturing m.state then failed_exit code else MidiStatus.stopped;
}

unfoldable pub poll_midi : Option ℤ → Manager → Manager
poll_midi poll m = if m.midi then midi_polled poll m else m

-- The second part: what a running session's file says. A number that is none stops the reading.
abbrev pub with_xruns : List Text → Option ℤ → Manager → Manager
with_xruns fields none m = record m { error = unreadable_status }
with_xruns fields (some n) m =
    let said = state_of (text_or [] (field (codes "state") fields)) in
    record m {
      xruns = n;
      error = if is_zero m.dropped then m.error else overflow_recorded;
      state = if is_over said then said else m.state;
    }

abbrev pub with_dropped : List Text → Option ℤ → Manager → Manager
with_dropped fields none m = record m { error = unreadable_status }
with_dropped fields (some n) m =
    with_xruns fields (int_or (pos 0) (field (codes "xrun_count") fields))
      (record m { dropped = n })

abbrev pub active_read : FileRead → Manager → Manager
active_read missing m = m
active_read unreadable m = record m { error = unreadable_status }
active_read (lines fields) m =
    with_dropped fields (int_or m.dropped (field (codes "dropped_frames") fields)) m

unfoldable pub read_active : FileRead → Manager → Manager
read_active file m = if m.session then active_read file m else m

-- `_request_disk_lost`
abbrev pub signal_of : Bool → Signal
signal_of sent = if sent then usr1 else terminate

abbrev pub signal_running : Option ℤ → Bool → List Signal
signal_running none sent = signal_of sent ∷ []
signal_running (some code) sent = []

unfoldable pub request_disk_lost : Problem → Option ℤ → Bool → Manager → Left
request_disk_lost reason poll sent m = record {
  raised = false;
  signals = if m.process then signal_running poll sent else [];
  manager = record m { state = disk_lost; error = reason };
}

abbrev pub is_disk_lost : State → Bool
is_disk_lost disk_lost = true
is_disk_lost s = false

abbrev pub is_failed : State → Bool
is_failed failed = true
is_failed s = false

abbrev pub is_recording : State → Bool
is_recording State.recording = true
is_recording s = false

abbrev pub is_problem : Problem → Bool
is_problem no_problem = false
is_problem p = true

-- The handler of the finalization: an exception after the state was taken from the file.
unfoldable pub finalization_error : Manager → Manager
finalization_error m =
    if is_disk_lost m.state
    then record m { error = metadata_failed m.error }
    else record m { state = disk_lost; error = finalization_failed }

-- The conditional expression for `error` at the end of a session.
unfoldable pub final_problem : Manager → Problem
final_problem m =
    if is_disk_lost m.state && is_problem m.error
    then m.error
    else if not (is_zero m.dropped)
    then overflow
    else if is_failed m.state
    then io_failure
    else if is_disk_lost m.state
    then disk_unavailable
    else no_problem

abbrev pub with_final_xruns : MidiEnd → Bool → Option ℤ → Manager → Manager
with_final_xruns e written none m = finalization_error m
with_final_xruns e written (some n) m =
    let m1 = stop_midi e (record m { xruns = n }) in
    let m2 = record m1 { error = final_problem m1 } in if written then m2 else finalization_error m2

abbrev pub with_final_dropped : List Text → MidiEnd → Bool → Option ℤ → Manager → Manager
with_final_dropped fields e written none m = finalization_error m
with_final_dropped fields e written (some n) m =
    with_final_xruns e written (int_or (pos 0) (field (codes "xrun_count") fields))
      (record m { dropped = n })

abbrev pub final_state : State → List Text → State
final_state s fields =
    if is_disk_lost s
    then disk_lost
    else state_of (text_or (codes "FAILED") (field (codes "state") fields))

-- The end of a session whose status file is there.
unfoldable pub finalize : List Text → MidiEnd → Bool → Manager → Manager
finalize fields e written m =
    with_final_dropped fields e written (int_or (pos 0) (field (codes "dropped_frames") fields))
      (record m { state = final_state m.state fields })

-- The process has exited. A file that cannot be read raises out of `status`.
abbrev pub on_exit : Probe → ℤ → FileRead → Manager → Left
on_exit p code missing m = returns (
    if is_recording m.state
    then record m { process = false; state = failed; error = recorder_exited code }
    else record m { process = false })
on_exit p code unreadable m = record { raised = true; signals = []; manager = m }
on_exit p code (lines fields) m =
    let m1 = finalize fields (p.midi_end) (p.metadata_written) m in
    returns (record m1 { process = false })

abbrev pub is_ready : Target → Bool
is_ready Target.ready = true
is_ready Target.no_recording_disk = false

-- The mount is looked at every five seconds at most.
unfoldable pub check_mount : ℕ → Mount → Manager → Manager
check_mount now mount m =
    if leb (m.last_check + 5000000000) now
    then record m { last_ok = is_ready (target mount); last_check = now }
    else m

-- `self.state="LOW_SPACE"` below the capacity, where the settings have one.
abbrev pub below_capacity : Result SettingError ℕ → ℕ → Manager → Left
below_capacity (err e) free m = record { raised = true; signals = []; manager = m }
below_capacity (ok capacity) free m =
    returns (if ltb free capacity then record m { state = low_space } else m)

abbrev pub running_space : Settings → Probe → Option ℕ → Manager → Left
running_space c p none m = request_disk_lost mount_disappeared (p.last_poll) (p.usr1_sent) m
running_space c p (some free) m = below_capacity (ready_capacity c) free m

-- The process runs.
unfoldable pub while_running : Settings → Probe → Manager → Left
while_running c p m =
    let m1 = check_mount (p.now) (p.mount) m in
    if m1.last_ok
    then running_space c p (p.free) m1
    else request_disk_lost mount_changed (p.last_poll) (p.usr1_sent) m1

abbrev pub idle_capacity : Result SettingError ℕ → ℕ → Manager → Left
idle_capacity (err e) free m = record { raised = true; signals = []; manager = m }
idle_capacity (ok capacity) free m =
    returns (record m { state = if leb capacity free then ready else low_space })

abbrev pub idle_space : Settings → Option ℕ → Manager → Left
idle_space c none m = returns (record m { state = no_recording_disk })
idle_space c (some free) m = idle_capacity (ready_capacity c) free m

-- No process, and no session whose end is to be shown.
unfoldable pub while_idle : Settings → Probe → Manager → Left
while_idle c p m =
    let m1 = check_mount (p.now) (p.mount) m in
    if m1.last_ok
    then idle_space c (p.free) m1
    else returns (record m1 { state = no_recording_disk })

abbrev pub is_waiting : State → Bool
is_waiting no_recording_disk = true
is_waiting idle = true
is_waiting ready = true
is_waiting low_space = true
is_waiting s = false

-- The process is asked twice whether it runs, so it may exit in between.
abbrev pub second_asked : Settings → Probe → Option ℤ → Manager → Left
second_asked c p none m = while_running c p m
second_asked c p (some code) m = returns m

abbrev pub first_asked : Settings → Probe → Option ℤ → Manager → Left
first_asked c p (some code) m = on_exit p code (p.exit_file) m
first_asked c p none m = second_asked c p (p.second_poll) m

unfoldable pub last_part : Settings → Probe → Manager → Left
last_part c p m =
    if m.process
    then first_asked c p (p.first_poll) m
    else if is_waiting m.state
    then while_idle c p m
    else returns m

unfoldable pub status : Settings → Probe → Manager → Left
status c p m = last_part c p (read_active (p.active_file) (poll_midi (p.midi_poll) m))
