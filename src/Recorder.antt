-- ===== src/Recorder.antt =====
-- mixer/recorder_policy.py: the recording policy and the state of a session.
pub mod Session
mod Tests
use sc_adat_appliance.Base.{
  ℕ, ◌-◌, ◌+◌, ◌*◌, ◌/◌, ◌^◌, zero, suc, Bool, true, false, not, ◌||◌, List, [], ◌∷◌, length, ltb,
  leb, ◌==◌, if◌then◌else◌,
}
use sc_adat_appliance.Base.Bytes.{same}
use sc_adat_appliance.Base.Text.{Text, codes}
use sc_adat_appliance.Base.Int.{ℤ, pos, negsuc}
use sc_adat_appliance.Base.Result.{Result, ok, err}

unfoldable pub bytes_per_second : ℕ → ℕ → ℕ → ℕ
bytes_per_second sample_rate channel_count bits = sample_rate * channel_count * (bits / 8)

abbrev pub channels : ℕ
channels = 19

abbrev pub emergency_reserve : ℕ
emergency_reserve = 5 * 1024 ^ 3

unfoldable pub required_ready_bytes : ℕ → ℕ → ℕ → ℕ → ℕ
required_ready_bytes sample_rate channel_count bits seconds =
    bytes_per_second sample_rate channel_count bits * seconds

unfoldable pub required_start_bytes : ℕ → ℕ → ℕ → ℕ → ℕ → ℕ
required_start_bytes sample_rate channel_count bits seconds reserve =
    required_ready_bytes sample_rate channel_count bits seconds + reserve

unfoldable pub segment_can_start : ℕ → ℕ → ℕ → ℕ → ℕ → ℕ → Bool
segment_can_start free_bytes segment_seconds sample_rate channel_count bits reserve =
    leb (bytes_per_second sample_rate channel_count bits * segment_seconds + reserve) free_bytes

pub data Target : Type 0 where
  ready no_recording_disk : Target

unfoldable pub validate_target : Text → Text → Text → Bool → Text → Target
validate_target mountpoint expected_uuid mounted_uuid writable filesystem =
    if not (same mountpoint (codes "/recordings"))
    then no_recording_disk
    else if length expected_uuid == 0
        || not (same mounted_uuid expected_uuid)
        || not writable
        || not (same filesystem (codes "ext4"))
    then no_recording_disk
    else ready

-- The values of `RecorderState.value`.
pub data Value : Type 0 where
  idle ready recording final_segment stopped_full disk_lost failed : Value

pub record RecorderState : Type 0 where
  pub value : Value
  pub segment : ℤ
  pub error : Text

abbrev pub initial : RecorderState
initial = record { value = idle; segment = negsuc 0; error = [] }

-- `segment += 1`
abbrev pub next : ℤ → ℤ
next (pos n) = pos (suc n)
next (negsuc zero) = pos 0
next (negsuc (suc n)) = negsuc n

-- The error is `RuntimeError("cannot start from ...")`.
abbrev pub begin_from : Value → RecorderState → Result Value RecorderState
begin_from ready s = ok (record s { value = recording; segment = pos 0 })
begin_from other s = err other

unfoldable pub begin : RecorderState → Result Value RecorderState
begin s = begin_from s.value s

abbrev pub next_from : Value → ℕ → ℕ → RecorderState → Bool × RecorderState
next_from recording free_bytes segment_seconds s =
    if not (segment_can_start free_bytes segment_seconds 48000 channels 24 emergency_reserve)
    then (false, record s { value = final_segment })
    else (true, record s { segment = next s.segment })
next_from _ free_bytes segment_seconds s = (false, s)

unfoldable pub next_segment : ℕ → ℕ → RecorderState → Bool × RecorderState
next_segment free_bytes segment_seconds s = next_from s.value free_bytes segment_seconds s

unfoldable pub space_during_segment : ℕ → RecorderState → RecorderState
space_during_segment free_bytes s =
    if ltb free_bytes emergency_reserve then record s { value = stopped_full } else s

unfoldable pub fail : Text → Bool → RecorderState → RecorderState
fail reason lost s = record s { value = if lost then disk_lost else failed; error = reason }

-- The calls on a session.
pub data Call : Type 0 where
  begin_call : Call
  next_call : ℕ → ℕ → Call
  space_call : ℕ → Call
  fail_call : Text → Bool → Call

abbrev pub or_same : RecorderState → Result Value RecorderState → RecorderState
or_same s (ok s') = s'
or_same s (err e) = s

-- The session after a call; a `begin` that raises changes nothing.
unfoldable pub call : Call → RecorderState → RecorderState
call begin_call s = or_same s (begin s)
call (next_call free_bytes segment_seconds) s = (next_segment free_bytes segment_seconds s).1
call (space_call free_bytes) s = space_during_segment free_bytes s
call (fail_call reason lost) s = fail reason lost s

unfoldable pub calls : List Call → RecorderState → RecorderState
calls [] s = s
calls (c ∷ cs) s = calls cs (call c s)
