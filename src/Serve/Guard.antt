-- ===== src/Serve/Guard.antt =====
-- The test generator starts only for a fresh and explicit arming, which it uses up.
use sc_adat_appliance.Base.{
  ℕ, ◌+◌, ◌<◌, ◌≡◌, refl, Bool, true, false, Option, none, some, List, [], ◌∷◌, arith,
  if◌then◌else◌, if_both,
}
use sc_adat_appliance.Serve.Generator.{
  Generator, Event, Sent, timeout, set_arm, set_enable, set_parameter, nothing, started, freed,
  changed, refused, stopped, is_due, disable_due, disarm_due, is_unarmed, switched_on, step, trace,
}

-- An arming less than ten seconds ago.
abbrev pub Fresh : Option ℕ → ℕ → Type 0
Fresh none now = ⊥
Fresh (some t) now = now < t + 10000000000

-- Each start in the trace has a fresh arming before it that was not taken back, and no start
-- between. `armed` is the time of the last one at the beginning.
abbrev pub IsGuarded : Option ℕ → List (Event × Sent) → Type 0
IsGuarded armed [] = Unit
IsGuarded armed ((set_arm true now, sent) ∷ rest) = IsGuarded (some now) rest
IsGuarded armed ((set_arm false now, sent) ∷ rest) = IsGuarded none rest
IsGuarded armed ((set_enable b now later, started) ∷ rest) = Fresh armed now × IsGuarded none rest
IsGuarded armed ((set_enable b now later, nothing) ∷ rest) = IsGuarded armed rest
IsGuarded armed ((set_enable b now later, freed) ∷ rest) = IsGuarded armed rest
IsGuarded armed ((set_enable b now later, changed) ∷ rest) = IsGuarded armed rest
IsGuarded armed ((set_enable b now later, refused) ∷ rest) = IsGuarded armed rest
IsGuarded armed ((timeout now later, sent) ∷ rest) = IsGuarded armed rest
IsGuarded armed ((set_parameter, sent) ∷ rest) = IsGuarded armed rest

-- The deadline of the object is that of the last arming, or there is none.
abbrev Follows : Option ℕ → Option ℕ → Type 0
Follows armed none = Unit
Follows none (some d) = ⊥
Follows (some t) (some d) = d ≡ t + 10000000000

disarm_due-Follows :
    (armed : Option ℕ) (now : ℕ) (g : Generator)
    → Follows armed g.arm_deadline
    → Follows armed (disarm_due now g).arm_deadline
disarm_due-Follows armed now g h =
    if_both (λ (u : Generator). Follows armed u.arm_deadline) (is_due g.arm_deadline now) _ g tt h

disable_due-Follows :
    (armed : Option ℕ) (now : ℕ) (g : Generator)
    → Follows armed g.arm_deadline
    → Follows armed (disable_due now g).arm_deadline
disable_due-Follows armed now g h =
    if_both (λ (u : Generator). Follows armed u.arm_deadline) (is_due g.deadline now) _ g h h

armed-Fresh :
    (armed deadline : Option ℕ) (now : ℕ)
    → Follows armed deadline
    → is_unarmed deadline now ≡ false
    → Fresh armed now
armed-Fresh armed none now h e = cc
armed-Fresh none (some d) now h e = h
armed-Fresh (some t) (some d) now h e = ground (arith, h, e)

-- What follows an attempt to switch the generator on is guarded, if what follows is.
enable-Guarded :
    (armed : Option ℕ) (now later : ℕ) (es : List Event) (g : Generator)
    → Follows armed g.arm_deadline
    → ((a : Option ℕ) (u : Generator) → Follows a u.arm_deadline → IsGuarded a (trace es u))
    → IsGuarded armed (
        (set_enable true now later, (switched_on now later g).0)
        ∷ trace es (switched_on now later g).1)
enable-Guarded armed now later es g h next = go (is_unarmed g.arm_deadline now) refl
  where
    on : Generator
    on = record g {
      enable = true;
      arm = false;
      arm_deadline = none;
      deadline = some (later + 30000000000);
    }

    off : Generator
    off = record g { enable = false }

    chosen : Bool → Sent × Generator
    chosen b = if b then (refused, off) else (started, on)

    go :
        (b : Bool)
        → is_unarmed g.arm_deadline now ≡ b
        → IsGuarded armed ((set_enable true now later, (chosen b).0) ∷ trace es (chosen b).1)
    go true e = next armed off h
    go false e = (armed-Fresh armed g.arm_deadline now h e, next none on tt)

trace-Guarded :
    (es : List Event) (armed : Option ℕ) (g : Generator)
    → Follows armed g.arm_deadline
    → IsGuarded armed (trace es g)
unfolding trace step
trace-Guarded [] armed g h = tt
trace-Guarded (timeout now later ∷ es) armed g h =
    trace-Guarded es armed (disarm_due later (disable_due now g))
      (disarm_due-Follows armed later (disable_due now g) (disable_due-Follows armed now g h))
trace-Guarded (set_arm true now ∷ es) armed g h = trace-Guarded es (some now) _ refl
trace-Guarded (set_arm false now ∷ es) armed g h = trace-Guarded es none _ tt
trace-Guarded (set_enable false now later ∷ es) armed g h = trace-Guarded es armed _ h
trace-Guarded (set_enable true now later ∷ es) armed g h =
    enable-Guarded armed now later es g h (trace-Guarded es)
trace-Guarded (set_parameter ∷ es) armed g h = trace-Guarded es armed g h

-- Whatever happens from the beginning on, the test generator starts only less than ten seconds
-- after it was armed, with no disarming and no other start between.
pub trace-IsGuarded : (es : List Event) → IsGuarded none (trace es stopped)
trace-IsGuarded es = trace-Guarded es none stopped tt
