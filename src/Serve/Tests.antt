-- ===== src/Serve/Tests.antt =====
-- A reply port and an armed start, and the theorems on them.
use sc_adat_appliance.Base.{ℕ, ◌≡◌, refl, true, Option, none, some, List, [], ◌∷◌}
use sc_adat_appliance.Base.Int.{ℤ, pos}
use sc_adat_appliance.Base.Text.{codes}
use sc_adat_appliance.Osc.{flt, str}
use sc_adat_appliance.Osc.Patterns.{patterns}
use sc_adat_appliance.Serve.{Address, request_destination, reply_destination}
use sc_adat_appliance.Serve.Generator.{
  Event, set_arm, set_enable, timeout, nothing, started, refused, stopped, trace, step,
}
use sc_adat_appliance.Serve.Guard.{IsGuarded, trace-IsGuarded}

-- The floats 57130.0 and no other that is needed.
whole : ℕ → Option ℤ
whole n = some (pos 57130)

abbrev client : Address
client = (codes "10.0.0.2", 50000)

redirected :
    request_destination patterns whole client (str (codes "master") ∷ flt 0x475F2A00 ∷ []) 1 2
    ≡ ((codes "10.0.0.2", 57130), none)
unfolding request_destination reply_destination whole
redirected = refl

-- Armed and started; the second start is refused.
abbrev events : List Event
events =
    set_arm true 5
    ∷ timeout 250000000 250000001
    ∷ set_enable true 9000000000 9000000001
    ∷ set_enable true 9500000000 9500000001
    ∷ []

started_once :
    trace events stopped
    ≡ (set_arm true 5, nothing)
      ∷ (timeout 250000000 250000001, nothing)
      ∷ (set_enable true 9000000000 9000000001, started)
      ∷ (set_enable true 9500000000 9500000001, refused)
      ∷ []
unfolding trace step
started_once = refl

trace-IsGuarded_example : IsGuarded none (trace events stopped)
trace-IsGuarded_example = trace-IsGuarded events
