-- ===== src/Recorder/Tests.antt =====
-- Sessions of the recording policy, and the theorems about them at concrete inputs.
use sc_adat_appliance.Base.{ℕ, ◌+◌, ◌-◌, ◌^◌, ◌*◌, ◌≡◌, refl, true, List, [], ◌∷◌, arith}
use sc_adat_appliance.Base.Int.{pos}
use sc_adat_appliance.Base.Text.{codes}
use sc_adat_appliance.Recorder
use sc_adat_appliance.Recorder.{
  RecorderState, Call, begin_call, next_call, space_call, fail_call, next, begin, next_segment,
  space_during_segment, calls, segment_can_start, bytes_per_second, required_start_bytes,
  required_ready_bytes, channels, emergency_reserve,
}
use sc_adat_appliance.Recorder.Session.{
  nominal, record_segments, segment_keeps_reserve, window_lasts,
}

abbrev running : RecorderState
running = record { value = Recorder.Value.recording; segment = pos 3; error = [] }

abbrev stopped : RecorderState
stopped = record { value = Recorder.Value.stopped_full; segment = pos 3; error = [] }

abbrev later : List Call
later = begin_call ∷ next_call (10 ^ 12) 900 ∷ space_call 0 ∷ fail_call (codes "gone") true ∷ []

abbrev room : ℕ
room = 10000000000

segment_keeps_reserve_example :
    ((next_segment room 900 running).1.segment ≡ next (pos 3))
    × ((next_segment room 900 running).1.value ≡ Recorder.Value.recording)
    × (space_during_segment (room - 2462400000) (next_segment room 900 running).1
        ≡ (next_segment room 900 running).1)
segment_keeps_reserve_example =
    segment_keeps_reserve room 900 2462400000 running
      (unfold next_segment segment_can_start bytes_per_second in refl) (omega arith)

-- The start threshold of two hours.
start_threshold : required_start_bytes 48000 channels 24 7200 emergency_reserve ≡ 25067909120
unfolding required_start_bytes required_ready_bytes bytes_per_second
start_threshold = refl

-- Eight segments of fifteen minutes in a window of two hours.
window_lasts_example :
    let (allowed, left, after) = record_segments 8 26000000000 900 running in
    (allowed ≡ 8)
    × (left + nominal * (8 * 900) ≡ 26000000000)
    × (after.value ≡ Recorder.Value.recording)
window_lasts_example =
    window_lasts 8 900 7200 26000000000 running refl (omega arith)
      (unfold required_start_bytes required_ready_bytes bytes_per_second in omega arith)
