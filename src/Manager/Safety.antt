-- ===== src/Manager/Safety.antt =====
-- What `start` needs and leaves behind, and what `status` and `stop` do to the process.
use sc_adat_appliance.Base.{
  ℕ, ◌≤◌, ◌≡◌, inl, inr, refl, true, false, ◌||◌, Option, none, some, List, arith, ltb, Bool-cases,
}
use sc_adat_appliance.Base.Result.{Result, ok, err}
use sc_adat_appliance.Recorder.{Target, required_start_bytes, channels}
use sc_adat_appliance.Manager.{
  Manager, State, Settings, SettingError, Left, Signal, segment_setting, reserve_setting,
  ready_setting, target,
}
use sc_adat_appliance.Manager.Status.{is_ready, status}
use sc_adat_appliance.Manager.Plan.{PlanError, Track, track_plan}
use sc_adat_appliance.Manager.Start.{
  Request, is_active, Launch, MidiStart, Started, with_settings, with_status, with_space, with_plan,
  launched, start,
}

launched-ok :
    (l : Launch) (now : ℕ) (midi : MidiStart) (ts tracks : List Track) (signals : List Signal)
    (m : Manager)
    → (launched l now midi ts signals m).result ≡ ok tracks
    → (ts ≡ tracks)
      × ((launched l now midi ts signals m).manager.process ≡ true)
      × ((launched l now midi ts signals m).manager.state ≡ State.recording)
unfolding launched
launched-ok Launch.no_process now midi ts tracks signals m h = cc
launched-ok (Launch.exits_early true) now midi ts tracks signals m h = cc
launched-ok (Launch.exits_early false) now midi ts tracks signals m h = cc
launched-ok (Launch.connection_fails true) now midi ts tracks signals m h = cc
launched-ok (Launch.connection_fails false) now midi ts tracks signals m h = cc
launched-ok Launch.connected now midi ts tracks signals m h = (ground (arith, h), go midi, go' midi)
  where
    go : (k : MidiStart) → (launched Launch.connected now k ts signals m).manager.process ≡ true
    go MidiStart.no_port = refl
    go MidiStart.midi_runs = refl
    go MidiStart.midi_raises = refl
    go (MidiStart.midi_exits code) = refl

    go' :
        (k : MidiStart)
        → (launched Launch.connected now k ts signals m).manager.state ≡ State.recording
    go' MidiStart.no_port = refl
    go' MidiStart.midi_runs = refl
    go' MidiStart.midi_raises = refl
    go' (MidiStart.midi_exits code) = refl

-- The recorder runs and is shown as recording.
abbrev Runs : Started → Type 0
Runs s = (s.manager.process ≡ true) × (s.manager.state ≡ State.recording)

with_plan-ok :
    (r : Request) (p : Result PlanError (List Track)) (tracks : List Track) (signals : List Signal)
    (m : Manager)
    → r.launch ≡ true
    → (with_plan r p signals m).result ≡ ok tracks
    → (p ≡ ok tracks) × Runs (with_plan r p signals m)
with_plan-ok r (err e) tracks signals m l h = cc
with_plan-ok r (ok ts) tracks signals m l h = elim (Bool-cases r.files_written) [
  | inr e ↦ cc (rw e at h)
  | inl e ↦
      let k =
        launched-ok r.outcome r.now r.midi_start ts tracks signals (record m { session = true })
          (rw (e, l) at h) in
      (ground (arith, k), rw (e, l) (k.1, k.2))
]

with_space-ok :
    (r : Request) (required : ℕ) (space : Option ℕ) (tracks : List Track) (signals : List Signal)
    (m : Manager)
    → r.launch ≡ true
    → (with_space r required space signals m).result ≡ ok tracks
    → ((free : ℕ) × (space ≡ some free) × (required ≤ free))
      × (track_plan r.sources ≡ ok tracks)
      × Runs (with_space r required space signals m)
with_space-ok r required none tracks signals m l h = cc
with_space-ok r required (some free) tracks signals m l h = elim (Bool-cases (ltb free required)) [
  | inl e ↦ cc (rw e at h)
  | inr e ↦
      let k = with_plan-ok r (track_plan r.sources) tracks signals m l (rw e at h) in
      ((free, refl, ground (arith, e)), k.0, rw e (k.1))
]

is_ready-eq : (t : Target) → is_ready t ≡ true → t ≡ Target.ready
is_ready-eq Target.ready h = refl
is_ready-eq Target.no_recording_disk h = cc

-- What a start that launches has checked, and where it leaves the object.
abbrev Launches : Request → ℕ → List Track → Started → Type 0
Launches r required tracks s =
    (target r.mount ≡ Target.ready)
    × ((free : ℕ) × (r.free ≡ some free) × (required ≤ free))
    × (track_plan r.sources ≡ ok tracks)
    × Runs s

with_status-ok :
    (r : Request) (required : ℕ) (left : Left) (tracks : List Track)
    → r.launch ≡ true
    → (with_status r required left).result ≡ ok tracks
    → (left.manager.process ≡ false) × Launches r required tracks (with_status r required left)
unfolding with_status
with_status-ok r required left tracks l h = elim (Bool-cases left.raised) [
  | inl a ↦ cc (rw a at h)
  | inr a ↦ elim (Bool-cases (left.manager.process || is_active left.manager.state)) [
    | inl b ↦ cc (rw (a, b) at h)
    | inr b ↦ elim (Bool-cases (is_ready (target r.mount))) [
      | inr c ↦ cc (rw (a, b, c) at h)
      | inl c ↦
          let k =
            with_space-ok r required r.free tracks left.signals left.manager l
              (rw (a, b, c) at h) in
          (ground (arith, b), (is_ready-eq (target r.mount) c, k.0, k.1, rw (a, b, c) (k.2)))
    ]
  ]
]

-- The settings are valid, and their ready window with the reserve fits the free space.
abbrev pub Fits : Result SettingError ℕ → Result SettingError ℕ → Option ℕ → Type 0
Fits seconds reserve space =
    (n : ℕ) × (k : ℕ) × (free : ℕ) × (seconds ≡ ok n)
    × (reserve ≡ ok k)
    × (space ≡ some free)
    × (required_start_bytes 48000 channels 24 n k ≤ free)

-- A start that returns a session and launches has seen a ready target, no process, and space for
-- the ready window of the settings and their reserve; its tracks are the plan of the sources, and
-- the object then has a process and is recording.
pub start-ok :
    (c : Settings) (r : Request) (m : Manager) (tracks : List Track)
    → r.launch ≡ true
    → (start c r m).result ≡ ok tracks
    → (target r.mount ≡ Target.ready)
      × ((status c r.probe m).manager.process ≡ false)
      × Fits (ready_setting c) (reserve_setting c) r.free
      × (track_plan r.sources ≡ ok tracks)
      × ((start c r m).manager.process ≡ true)
      × ((start c r m).manager.state ≡ State.recording)
unfolding start
start-ok c r m tracks l h = go (segment_setting c) (reserve_setting c) (ready_setting c) h
  where
    go :
        (a b d : Result SettingError ℕ)
        → (with_settings c r a b d m).result ≡ ok tracks
        → (target r.mount ≡ Target.ready)
          × ((status c r.probe m).manager.process ≡ false)
          × Fits d b r.free
          × (track_plan r.sources ≡ ok tracks)
          × ((with_settings c r a b d m).manager.process ≡ true)
          × ((with_settings c r a b d m).manager.state ≡ State.recording)
    go (err e) b d k = cc
    go (ok a) (err e) d k = cc
    go (ok a) (ok b) (err e) k = cc
    go (ok a) (ok b) (ok d) k =
        let (idle, w) =
          with_status-ok r (required_start_bytes 48000 channels 24 d b) (status c r.probe m) tracks
            l k in
        let (free, is_free, enough) = w.1 in
        (w.0, idle, (d, b, free, refl, refl, is_free, enough), w.2, w.3.0, w.3.1)
