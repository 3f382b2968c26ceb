-- ===== src/Recorder/Session.antt =====
-- What the policy promises over a session.
use sc_adat_appliance.Base.{
  ℕ, ◌+◌, ◌*◌, ◌-◌, ◌≤◌, zero, suc, ◌≡◌, ◌≢◌, refl, true, List, [], ◌∷◌, arith, if◌then◌else◌, ◌∙◌,
}
use sc_adat_appliance.Recorder
use sc_adat_appliance.Recorder.{
  RecorderState, Call, begin_call, next_call, space_call, fail_call, channels, bytes_per_second,
  emergency_reserve, next, begin, next_segment, space_during_segment, fail, call, calls,
  segment_can_start, required_ready_bytes, required_start_bytes,
}

-- The nominal rate: 48 kHz, 19 channels, 24 bits.
abbrev pub nominal : ℕ
nominal = 2736000

bytes_per_second-nominal : bytes_per_second 48000 channels 24 ≡ nominal
unfolding bytes_per_second
bytes_per_second-nominal = refl

-- The session can neither begin nor record.
abbrev pub IsOver : RecorderState → Type 0
IsOver s = (s.value ≢ Recorder.Value.ready) × (s.value ≢ Recorder.Value.recording)

call-IsOver :
    (c : Call) (s : RecorderState) → IsOver s → IsOver (call c s) × ((call c s).segment ≡ s.segment)
unfolding call begin next_segment space_during_segment fail
call-IsOver begin_call s h = ground arith
call-IsOver (next_call free seconds) s h = ground arith
call-IsOver (space_call free) s h = ground arith
call-IsOver (fail_call reason lost) s h = ground arith

-- A session that has left the states ready and recording never returns to them, whatever is
-- called, and its segment number stays as it is.
pub calls-IsOver :
    (cs : List Call) (s : RecorderState)
    → IsOver s
    → IsOver (calls cs s) × ((calls cs s).segment ≡ s.segment)
unfolding calls
calls-IsOver [] s h = (h, refl)
calls-IsOver (c ∷ cs) s h =
    let (over, same_segment) = call-IsOver c s h in
    let (over', same_segment') = calls-IsOver cs (call c s) over in
    (over', same_segment' ∙ same_segment)

-- An allowed segment counts up by one and goes on recording; if it writes at most its length at
-- the nominal rate, the emergency reserve is never reached while it runs.
pub segment_keeps_reserve :
    (free seconds written : ℕ) (s : RecorderState)
    → (next_segment free seconds s).0 ≡ true
    → written ≤ nominal * seconds
    → ((next_segment free seconds s).1.segment ≡ next s.segment)
      × ((next_segment free seconds s).1.value ≡ Recorder.Value.recording)
      × (space_during_segment (free - written) (next_segment free seconds s).1
          ≡ (next_segment free seconds s).1)
unfolding next_segment space_during_segment segment_can_start bytes_per_second
segment_keeps_reserve free seconds written s h w = ground arith

-- A recorder that writes whole segments and asks before each: how many it was allowed, the free
-- space that is left, and the session.
unfoldable pub record_segments : ℕ → ℕ → ℕ → RecorderState → ℕ × ℕ × RecorderState
record_segments zero free_bytes segment_seconds s = (0, free_bytes, s)
record_segments (suc n) free_bytes segment_seconds s =
    let (allowed, s') = next_segment free_bytes segment_seconds s in
    let rest =
      record_segments n (free_bytes - bytes_per_second 48000 channels 24 * segment_seconds)
        segment_seconds s' in
    if allowed then (suc rest.0, rest.1, rest.2) else (0, free_bytes, s')

next_segment_allowed :
    (free seconds : ℕ) (s : RecorderState)
    → s.value ≡ Recorder.Value.recording
    → nominal * seconds + emergency_reserve ≤ free
    → next_segment free seconds s ≡ (true, record s { segment = next s.segment })
unfolding next_segment segment_can_start bytes_per_second
next_segment_allowed free seconds s rec room = ground arith

-- A session that begins with the space of `required_start_bytes` for a window gets every segment
-- that lies in the window, and is still recording after them.
pub window_lasts :
    (n seconds window free : ℕ) (s : RecorderState)
    → s.value ≡ Recorder.Value.recording
    → n * seconds ≤ window
    → required_start_bytes 48000 channels 24 window emergency_reserve ≤ free
    → let (allowed, left, after) = record_segments n free seconds s in
      (allowed ≡ n)
      × (left + nominal * (n * seconds) ≡ free)
      × (after.value ≡ Recorder.Value.recording)
unfolding record_segments required_start_bytes required_ready_bytes bytes_per_second
window_lasts zero seconds window free s rec fits room = ground arith
window_lasts (suc n) seconds window free s rec fits room =
    let step = next_segment_allowed free seconds s rec (omega arith) in
    let ih =
      window_lasts n seconds (window - seconds) (free - nominal * seconds)
        (record s { segment = next s.segment }) rec (omega arith) (omega arith) in
    rw step (omega (arith, ih.0), omega (arith, ih.1), ih.2)
