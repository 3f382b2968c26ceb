-- ===== src/Manager/Exit.antt =====
-- What `status` of mixer/recorder_manager.py does when the recorder or its disk is gone.
use sc_adat_appliance.Base.{
  ◌+◌, ◌≤◌, ◌≡◌, ◌≢◌, ◌∙◌, refl, Bool, true, false, Option, none, some, [], ◌∷◌, arith, leb,
  if◌then◌else◌, if_both,
}
use sc_adat_appliance.Base.Int.{ℤ}
use sc_adat_appliance.Recorder.{Target}
use sc_adat_appliance.Manager.{Manager, returns, State, Settings, Probe, Left, FileRead, target}
use sc_adat_appliance.Manager.Status.{
  status, request_disk_lost, signal_of, last_part, first_asked, second_asked, on_exit, check_mount,
  while_running, while_idle, is_waiting, is_recording,
}
use sc_adat_appliance.Manager.Process.{seen, seen-Kept}

-- The process is gone, and `status` has returned.
abbrev Ends : Left → Type 0
Ends left = (left.manager.process ≡ false) × (left.raised ≡ false)

on_exit-Ends :
    (p : Probe) (code : ℤ) (file : FileRead) (m : Manager)
    → file ≢ FileRead.unreadable
    → Ends (on_exit p code file m)
on_exit-Ends p code FileRead.missing m h =
    if_both (λ (u : Manager). (u.process ≡ false) × (false ≡ false)) (is_recording m.state) _ _
      (refl, refl) (refl, refl)
on_exit-Ends p code FileRead.unreadable m h = absurd (h refl)
on_exit-Ends p code (FileRead.lines fields) m h = (refl, refl)

first_asked-Ends :
    (c : Settings) (p : Probe) (poll : Option ℤ) (code : ℤ) (m : Manager)
    → poll ≡ some code
    → p.exit_file ≢ FileRead.unreadable
    → Ends (first_asked c p poll m)
first_asked-Ends c p none code m h file = cc
first_asked-Ends c p (some k) code m h file = on_exit-Ends p k p.exit_file m file

-- A process that has exited is taken leave of by the next `status`, whatever its file says, if
-- the file can be read or is not there.
pub status_ends :
    (c : Settings) (p : Probe) (m : Manager) (code : ℤ)
    → m.process ≡ true
    → p.first_poll ≡ some code
    → p.exit_file ≢ FileRead.unreadable
    → ((status c p m).manager.process ≡ false) × ((status c p m).raised ≡ false)
unfolding status last_part
status_ends c p m code h poll file = go (seen p m).process ((seen-Kept p m).0 ∙ h)
  where
    u : Manager
    u = seen p m

    go :
        (b : Bool)
        → b ≡ true
        → Ends (
            if b
            then first_asked c p p.first_poll u
            else if is_waiting u.state
            then while_idle c p u
            else returns u)
    go true e = first_asked-Ends c p p.first_poll code u poll file
    go false e = cc

-- The recorder is told, and the state says so.
abbrev Loses : Bool → Left → Type 0
Loses sent left = (left.signals ≡ signal_of sent ∷ []) × (left.manager.state ≡ State.disk_lost)

while_running-lost :
    (c : Settings) (p : Probe) (m : Manager)
    → m.process ≡ true
    → p.last_poll ≡ none
    → target p.mount ≡ Target.no_recording_disk
    → m.last_check + 5000000000 ≤ p.now
    → Loses p.usr1_sent (while_running c p m)
unfolding while_running check_mount request_disk_lost
while_running-lost c p m h poll lost late =
    let now : leb (m.last_check + 5000000000) p.now ≡ true = ground (arith, late) in
    rw (now, lost, h, poll) (refl, refl)

second_asked-Loses :
    (c : Settings) (p : Probe) (poll : Option ℤ) (m : Manager)
    → poll ≡ none
    → Loses p.usr1_sent (while_running c p m)
    → Loses p.usr1_sent (second_asked c p poll m)
second_asked-Loses c p none m e h = h
second_asked-Loses c p (some code) m e h = cc

first_asked-Loses :
    (c : Settings) (p : Probe) (poll : Option ℤ) (m : Manager)
    → poll ≡ none
    → Loses p.usr1_sent (second_asked c p p.second_poll m)
    → Loses p.usr1_sent (first_asked c p poll m)
first_asked-Loses c p none m e h = h
first_asked-Loses c p (some code) m e h = cc

-- A running recorder whose disk is gone or read-only is told so by a `status` that comes five
-- seconds or more after the last look at the mount, and the state is then DISK_LOST.
pub status_signals :
    (c : Settings) (p : Probe) (m : Manager)
    → m.process ≡ true
    → p.first_poll ≡ none
    → p.second_poll ≡ none
    → p.last_poll ≡ none
    → target p.mount ≡ Target.no_recording_disk
    → m.last_check + 5000000000 ≤ p.now
    → ((status c p m).signals ≡ signal_of p.usr1_sent ∷ [])
      × ((status c p m).manager.state ≡ State.disk_lost)
unfolding status last_part
status_signals c p m h first second last lost late =
    let kept = seen-Kept p m in
    let running = while_running-lost c p (seen p m) (kept.0 ∙ h) last lost (rw (kept.1) late) in
    go (seen p m).process (kept.0 ∙ h) (
      first_asked-Loses c p p.first_poll (seen p m) first
        (second_asked-Loses c p p.second_poll (seen p m) second running))
  where
    u : Manager
    u = seen p m

    go :
        (b : Bool)
        → b ≡ true
        → Loses p.usr1_sent (first_asked c p p.first_poll u)
        → Loses p.usr1_sent (
            if b
            then first_asked c p p.first_poll u
            else if is_waiting u.state
            then while_idle c p u
            else returns u)
    go true e k = k
    go false e k = cc
