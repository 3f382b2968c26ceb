-- ===== src/Manager/Process.antt =====
-- What `status` and a failed `start` do to the recorder's process.
use sc_adat_appliance.Base.{
  ℕ, ◌+◌, ◌≡◌, ◌≢◌, ◌∙◌, refl, sym, Bool, true, false, not, ◌||◌, Option, none, some, List, arith,
  ltb, leb, if◌then◌else◌, if_both,
}
use sc_adat_appliance.Base.Int.{ℤ, pos}
use sc_adat_appliance.Base.Result.{Result, ok, err}
use sc_adat_appliance.Base.Text.{Text, codes}
use sc_adat_appliance.Recorder.{required_start_bytes, channels}
use sc_adat_appliance.Manager.{
  Manager, returns, Settings, SettingError, Probe, Mount, Left, Signal, FileRead, segment_setting,
  reserve_setting, ready_setting, ready_capacity, target,
}
use sc_adat_appliance.Manager.Status.{
  is_ready, status, poll_midi, midi_polled, read_active, active_read, with_dropped, with_xruns,
  last_part, first_asked, check_mount, while_idle, idle_space, idle_capacity, is_waiting, field,
  int_or,
}
use sc_adat_appliance.Manager.Plan.{PlanError, Track, track_plan}
use sc_adat_appliance.Manager.Start.{
  Request, is_active, Launch, MidiStart, StartError, Started, kill_fails, with_settings,
  with_status, with_space, with_plan, launched, killed, start,
}

-- The fields that the polls leave alone.
abbrev pub Kept : Manager → Manager → Type 0
Kept m m' = (m'.process ≡ m.process) × (m'.last_check ≡ m.last_check)

midi_polled-Kept : (poll : Option ℤ) (m : Manager) → Kept m (midi_polled poll m)
midi_polled-Kept none m = (refl, refl)
midi_polled-Kept (some code) m = (refl, refl)

poll_midi-Kept : (poll : Option ℤ) (m : Manager) → Kept m (poll_midi poll m)
unfolding poll_midi
poll_midi-Kept poll m =
    if_both (Kept m) m.midi (midi_polled poll m) m (midi_polled-Kept poll m) (refl, refl)

with_xruns-Kept : (fields : List Text) (n : Option ℤ) (m : Manager) → Kept m (with_xruns fields n m)
with_xruns-Kept fields none m = (refl, refl)
with_xruns-Kept fields (some n) m = (refl, refl)

active_read-Kept : (file : FileRead) (m : Manager) → Kept m (active_read file m)
active_read-Kept FileRead.missing m = (refl, refl)
active_read-Kept FileRead.unreadable m = (refl, refl)
active_read-Kept (FileRead.lines fields) m =
    go (int_or m.dropped (field (codes "dropped_frames") fields))
  where
    go : (n : Option ℤ) → Kept m (with_dropped fields n m)
    go none = (refl, refl)
    go (some n) =
        with_xruns-Kept fields (int_or (pos 0) (field (codes "xrun_count") fields))
          (record m { dropped = n })

-- The object when its process is asked for.
abbrev pub seen : Probe → Manager → Manager
seen p m = read_active p.active_file (poll_midi p.midi_poll m)

read_active-Kept : (file : FileRead) (m : Manager) → Kept m (read_active file m)
unfolding read_active
read_active-Kept file m =
    if_both (Kept m) m.session (active_read file m) m (active_read-Kept file m) (refl, refl)

pub seen-Kept : (p : Probe) (m : Manager) → Kept m (seen p m)
seen-Kept p m =
    let a = poll_midi-Kept p.midi_poll m in
    let b = read_active-Kept p.active_file (poll_midi p.midi_poll m) in (b.0 ∙ a.0, b.1 ∙ a.1)

-- A process of the object afterwards was one before.
abbrev Follows : Manager → Left → Type 0
Follows m left = left.manager.process ≡ true → m.process ≡ true

check_mount-process :
    (now : ℕ) (mount : Mount) (m : Manager) → (check_mount now mount m).process ≡ m.process
unfolding check_mount
check_mount-process now mount m =
    if_both (λ u. u.process ≡ m.process) (leb (m.last_check + 5000000000) now) _ m refl refl

idle_space-Follows :
    (c : Settings) (space : Option ℕ) (m : Manager) → Follows m (idle_space c space m)
idle_space-Follows c none m = λ h. h
idle_space-Follows c (some free) m = go (ready_capacity c)
  where
    go : (r : Result SettingError ℕ) → Follows m (idle_capacity r free m)
    go (err e) = λ h. h
    go (ok capacity) = λ h. h

while_idle-Follows : (c : Settings) (p : Probe) (m : Manager) → Follows m (while_idle c p m)
unfolding while_idle
while_idle-Follows c p m =
    let m1 = check_mount p.now p.mount m in
    let same = check_mount-process p.now p.mount m in
    if_both (Follows m) m1.last_ok _ _ (λ h. sym same ∙ idle_space-Follows c p.free m1 h)
      (λ h. sym same ∙ h)

last_part-Follows : (c : Settings) (p : Probe) (m : Manager) → Follows m (last_part c p m)
unfolding last_part
last_part-Follows c p m = go m.process refl
  where
    go :
        (b : Bool)
        → m.process ≡ b
        → Follows m (
            if b
            then first_asked c p p.first_poll m
            else if is_waiting m.state
            then while_idle c p m
            else returns m)
    go true e = λ _. e
    go false e =
        if_both (Follows m) (is_waiting m.state) (while_idle c p m) (returns m)
          (while_idle-Follows c p m) (λ h. h)

-- `status` never starts a process.
status-Follows : (c : Settings) (p : Probe) (m : Manager) → Follows m (status c p m)
unfolding status
status-Follows c p m h = sym (seen-Kept p m).0 ∙ last_part-Follows c p (seen p m) h

-- A start that raises, unless a process could not be killed, has no process that was not there.
abbrev Leaves : Manager → Started → Type 0
Leaves m s =
    (e : StartError)
    → s.result ≡ err e
    → e ≢ kill_fails
    → s.manager.process ≡ true
    → m.process ≡ true

killed-Leaves :
    (reaped : Bool) (signals : List Signal) (m : Manager) → Leaves m (killed reaped signals m)
killed-Leaves true signals m = λ e h k p. cc p
killed-Leaves false signals m = λ e h k p. absurd (k (ground (arith, h)))

launched-Leaves :
    (l : Launch) (now : ℕ) (midi : MidiStart) (ts : List Track) (signals : List Signal)
    (m : Manager)
    → Leaves m (launched l now midi ts signals m)
unfolding launched
launched-Leaves Launch.no_process now midi ts signals m = λ e h k p. cc p
launched-Leaves (Launch.exits_early reaped) now midi ts signals m = killed-Leaves reaped signals m
launched-Leaves (Launch.connection_fails reaped) now midi ts signals m =
    killed-Leaves reaped signals m
launched-Leaves Launch.connected now midi ts signals m = λ e h k p. cc h

with_plan-Leaves :
    (r : Request) (p : Result PlanError (List Track)) (signals : List Signal) (m : Manager)
    → Leaves m (with_plan r p signals m)
with_plan-Leaves r (err e) signals m = λ _ _ _ q. q
with_plan-Leaves r (ok ts) signals m =
    if_both (Leaves m) (not r.files_written) _ _ (λ _ _ _ q. q)
      (if_both (Leaves m) (not r.launch) _ _ (λ _ _ _ q. q)
        (launched-Leaves r.outcome r.now r.midi_start ts signals (record m { session = true })))

with_space-Leaves :
    (r : Request) (required : ℕ) (space : Option ℕ) (signals : List Signal) (m : Manager)
    → Leaves m (with_space r required space signals m)
with_space-Leaves r required none signals m = λ _ _ _ q. q
with_space-Leaves r required (some free) signals m =
    if_both (Leaves m) (ltb free required) _ _ (λ _ _ _ q. q)
      (with_plan-Leaves r (track_plan r.sources) signals m)

with_status-Leaves :
    (r : Request) (required : ℕ) (left : Left) → Leaves left.manager (with_status r required left)
unfolding with_status
with_status-Leaves r required left =
    let m = left.manager in
    if_both (Leaves m) left.raised _ _ (λ _ _ _ q. q)
      (if_both (Leaves m) (m.process || is_active m.state) _ _ (λ _ _ _ q. q)
        (if_both (Leaves m) (not (is_ready (target r.mount))) _ _ (λ _ _ _ q. q)
          (with_space-Leaves r required r.free left.signals m)))

-- A start that raises leaves no process behind: one that is there afterwards was there before,
-- unless the process that did not come up could not be killed.
pub start_error :
    (c : Settings) (r : Request) (m : Manager) (e : StartError)
    → (start c r m).result ≡ err e
    → e ≢ kill_fails
    → (start c r m).manager.process ≡ true
    → m.process ≡ true
unfolding start
start_error c r m = go (segment_setting c) (reserve_setting c) (ready_setting c)
  where
    go : (a b d : Result SettingError ℕ) → Leaves m (with_settings c r a b d m)
    go (err e) b d = λ _ _ _ q. q
    go (ok a) (err e) d = λ _ _ _ q. q
    go (ok a) (ok b) (err e) = λ _ _ _ q. q
    go (ok a) (ok b) (ok d) = λ e h k q. status-Follows c r.probe m (
        with_status-Leaves r (required_start_bytes 48000 channels 24 d b) (status c r.probe m) e h k
          q)
