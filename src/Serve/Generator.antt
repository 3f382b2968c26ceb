-- ===== src/Serve/Generator.antt =====
-- mixer/mixerctl.py: the test generator in the loop of `serve`. Times are nanoseconds; `now` and
-- `then` are readings of the clock, one for each call of it.
use sc_adat_appliance.Base.{
  ℕ, ◌+◌, Bool, true, false, Option, none, some, List, [], ◌∷◌, leb, if◌then◌else◌,
}

-- The values of testGeneratorEnable and testGeneratorArm in the state, and the two deadlines.
pub record Generator : Type 0 where
  pub enable : Bool
  pub arm : Bool
  pub deadline : Option ℕ
  pub arm_deadline : Option ℕ

abbrev pub stopped : Generator
stopped = record { enable = false; arm = false; deadline = none; arm_deadline = none }

-- What happens to the generator: the socket times out, or a value is set that has passed the
-- checks; arm and enable are 0 or 1.
pub data Event : Type 0 where
  timeout : ℕ → ℕ → Event
  set_arm : Bool → ℕ → Event
  set_enable : Bool → ℕ → ℕ → Event
  set_parameter : Event

-- What is sent for it: a new node, the end of the node, a change of its control, an error, or
-- nothing but the acknowledgement.
pub data Sent : Type 0 where
  nothing started freed changed refused : Sent

abbrev pub is_due : Option ℕ → ℕ → Bool
is_due none now = false
is_due (some t) now = leb t now

-- The two checks of a timeout.
abbrev pub disable_due : ℕ → Generator → Generator
disable_due now g =
    if is_due g.deadline now then record g { enable = false; deadline = none } else g

abbrev pub disarm_due : ℕ → Generator → Generator
disarm_due now g =
    if is_due g.arm_deadline now then record g { arm = false; arm_deadline = none } else g

-- `test_generator_arm_deadline is None or time.monotonic() >= test_generator_arm_deadline`
abbrev pub is_unarmed : Option ℕ → ℕ → Bool
is_unarmed none now = true
is_unarmed (some t) now = leb t now

abbrev pub switched_on : ℕ → ℕ → Generator → Sent × Generator
switched_on now then_now g =
    if is_unarmed g.arm_deadline now then (refused, record g { enable = false }) else (
      started,
      record g {
        enable = true;
        arm = false;
        arm_deadline = none;
        deadline = some (then_now + 30000000000);
      },
    )

unfoldable pub step : Event → Generator → Sent × Generator
step (timeout now later) g = (nothing, disarm_due later (disable_due now g))
step (set_arm true now) g =
    (nothing, record g { arm = true; arm_deadline = some (now + 10000000000) })
step (set_arm false now) g = (nothing, record g { arm = false; arm_deadline = none })
step (set_enable true now later) g = switched_on now later g
step (set_enable false now later) g = (freed, record g { enable = false; deadline = none })
step set_parameter g = (if g.enable then changed else nothing, g)

-- What happened, with what was sent for it.
unfoldable pub trace : List Event → Generator → List (Event × Sent)
trace [] g = []
trace (e ∷ es) g = let out = step e g in (e, out.0) ∷ trace es out.1
