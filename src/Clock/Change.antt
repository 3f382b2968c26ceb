-- ===== src/Clock/Change.antt =====
-- `set_mode` of audio/clock.py: the change of the clock, its readback and its rollback.
pub mod Rollback
use sc_adat_appliance.Base.{
  ℕ, ◌≡◌, not, Bool, true, false, ◌&&◌, Option, none, some, List, [], ◌∷◌, length, ◌==◌,
  if◌then◌else◌,
}
use sc_adat_appliance.Base.Bytes.{same}
use sc_adat_appliance.Base.Text.{Text, codes}
use sc_adat_appliance.Base.Result.{Result, ok, err}
use sc_adat_appliance.Clock.{rate_fits}

-- The `amixer` and `docker compose` commands over the machine's state. A reading is `none` and a
-- command `false` where it raises. A set that succeeds may have left its control as it was; a set of
-- the source leaves the mode alone, and the commands on the services leave both controls alone.
pub record Lab : Type 1 where
  pub State : Type 0
  pub mode_of : State → Option Text
  pub source_of : State → Option Text
  pub jack_rate : State → Option ℕ
  pub services_running : State → List Text
  pub set_sync_mode : Text → State → Bool × State
  pub set_source : Text → State → Bool × State
  pub service_stop : State → Bool × State
  pub service_start : List Text → State → Bool × State
  pub set_source_keeps : (t : Text) (w : State) → mode_of ((set_source t w).1) ≡ mode_of w
  pub service_stop_keeps :
      (w : State)
      → (mode_of ((service_stop w).1) ≡ mode_of w) × (source_of ((service_stop w).1) ≡ source_of w)
  pub service_start_keeps :
      (r : List Text) (w : State)
      → (mode_of ((service_start r w).1) ≡ mode_of w)
        × (source_of ((service_start r w).1) ≡ source_of w)

-- The two `ValueError`s on the arguments.
pub data Refusal : Type 0 where
  bad_mode bad_source : Refusal

-- How a call ends. Only `changed` is no error; the `status` that may follow it only reads.
pub data Outcome : Type 0 where
  refused : Refusal → Outcome
  unreadable wrong_rate stop_failed : Outcome
  rolled_back rollback_failed rollback_start_failed : Outcome
  start_failed rate_changed changed : Outcome

-- `MODE_NAMES.get(mode)`
unfoldable pub mode_name : Text → Option Text
mode_name t =
    if same t (codes "master")
    then some (codes "Master")
    else if same t (codes "autosync")
    then some (codes "AutoSync")
    else if same t (codes "wordclock")
    then some (codes "Word Clock")
    else none

-- `SOURCE_NAMES.get(source)`
unfoldable pub source_name : Text → Option Text
source_name t =
    if same t (codes "adat1")
    then some (codes "ADAT1 In")
    else if same t (codes "adat2")
    then some (codes "ADAT2 In")
    else if same t (codes "adat3")
    then some (codes "ADAT3 In")
    else if same t (codes "iec958")
    then some (codes "IEC958 In")
    else none

abbrev pub wanted_source : Bool → Text → Option Text → Result Refusal (Text × Option Text)
wanted_source true name none = err bad_source
wanted_source true name (some s) = elim (source_name s) [
  | none ↦ err bad_source
  | some t ↦ ok (name, some t)
]
wanted_source false name none = ok (name, none)
wanted_source false name (some s) = err bad_source

-- The checks of the arguments, and the names that the card has for them.
unfoldable pub wanted : Text → Option Text → Result Refusal (Text × Option Text)
wanted mode source = elim (mode_name mode) [
  | none ↦ err bad_mode
  | some name ↦ wanted_source (same mode (codes "autosync")) name source
]

abbrev pub reads : Option Text → Text → Bool
reads none t = false
reads (some s) t = same s t

abbrev pub is_readable : Option Text → Bool
is_readable none = false
is_readable (some s) = true

module _ (lab : Lab) where
  open lab use {
    State, mode_of, source_of, jack_rate, services_running, set_sync_mode, set_source, service_stop,
    service_start,
  }

  abbrev pub set_wanted_source : Option Text → State → Bool × State
  set_wanted_source none w = (true, w)
  set_wanted_source (some s) w = set_source s w

  -- The test after the readback; both controls are read.
  abbrev pub reads_back : Text → Option Text → State → Bool
  reads_back name none w = reads (mode_of w) name && is_readable (source_of w)
  reads_back name (some s) w = reads (mode_of w) name && reads (source_of w) s

  -- The body of the `try`: false where it raises.
  unfoldable pub change : Text → Option Text → State → Bool × State
  change name source w =
      let (mode_set, w1) = set_sync_mode name w in
      let (source_set, w2) = set_wanted_source source w1 in
      if mode_set
      then (if source_set then (reads_back name source w2, w2) else (false, w2))
      else (false, w1)

  -- The inner `try` of the handler.
  unfoldable pub restore : Text → Text → State → Bool × State
  restore old_mode old_source w =
      let (mode_set, w1) = set_sync_mode old_mode w in
      if mode_set then set_source old_source w1 else (false, w1)

  -- The handler: the services are started whether or not the restoring succeeded.
  unfoldable pub roll_back : Text → Text → List Text → State → Outcome × State
  roll_back old_mode old_source running w =
      let (restored, w1) = restore old_mode old_source w in
      let (started, w2) = service_start running w1 in
      if not restored
      then (rollback_failed, w2)
      else if not started
      then (rollback_start_failed, w2)
      else (rolled_back, w2)

  -- What follows a change that was read back.
  unfoldable pub settle : List Text → State → Outcome × State
  settle running w =
      let (started, w1) = service_start running w in
      if not started
      then (start_failed, w1)
      else if not (rate_fits (jack_rate w1))
      then (rate_changed, w1)
      else (changed, w1)

  unfoldable pub attempt : Text → Option Text → Text → Text → List Text → State → Outcome × State
  attempt name source old_mode old_source running w =
      let (done, w1) = change name source w in
      if done then settle running w1 else roll_back old_mode old_source running w1

  -- From the readings on: the services are stopped if any runs.
  unfoldable pub begin_change : Text → Option Text → Text → Text → State → Outcome × State
  begin_change name source old_mode old_source w =
      let running = services_running w in
      let (stopped, w1) = service_stop w in
      if not (rate_fits (jack_rate w))
      then (wrong_rate, w)
      else if length running == 0
      then attempt name source old_mode old_source running w
      else if not stopped
      then (stop_failed, w1)
      else attempt name source old_mode old_source running w1

  abbrev pub with_readings :
      Text → Option Text → Option Text → Option Text → State → Outcome × State
  with_readings name source (some old_mode) (some old_source) w =
      begin_change name source old_mode old_source w
  with_readings name source _ _ w = (unreadable, w)

  abbrev pub with_names : Result Refusal (Text × Option Text) → State → Outcome × State
  with_names (err e) w = (refused e, w)
  with_names (ok (name, source)) w = with_readings name source (mode_of w) (source_of w) w

  unfoldable pub set_mode : Text → Option Text → State → Outcome × State
  set_mode mode source w = with_names (wanted mode source) w
