-- ===== src/Clock/Change/Rollback.antt =====
-- Where a call of `set_mode` leaves the card.
use sc_adat_appliance.Base.{
  ◌≡◌, ◌∙◌, sym, refl, ap, true, Option, none, some, List, arith, length, ◌==◌, Bool-cases, inl,
  inr,
}
use sc_adat_appliance.Base.Bytes.{same_iff}
use sc_adat_appliance.Base.Text.{Text}
use sc_adat_appliance.Base.Result.{Result, ok, err}
use sc_adat_appliance.Clock.{rate_fits}
use sc_adat_appliance.Clock.Change.{
  Lab, Outcome, Refusal, rollback_failed, start_failed, rate_changed, changed, set_wanted_source,
  wanted, change, restore, roll_back, settle, attempt, begin_change, with_readings, with_names,
  set_mode, reads_back, reads,
}

module _ (lab : Lab) where
  open lab use {State, mode_of, source_of, set_sync_mode, set_source, service_start}

  reads-eq-some : (o : Option Text) (t : Text) → reads o t ≡ true → o ≡ some t
  reads-eq-some none t h = cc
  reads-eq-some (some s) t h = ap some ((same_iff s t).0 h)

  -- A control that is set back to the text that it had in a state takes it, if the set succeeds.
  abbrev pub TakesBack : State → Type 0
  TakesBack u =
      ((m : Text) (v : State)
        → mode_of u ≡ some m
        → (set_sync_mode m v).0 ≡ true
        → mode_of ((set_sync_mode m v).1) ≡ some m)
      × ((s : Text) (v : State)
          → source_of u ≡ some s
          → (set_source s v).0 ≡ true
          → source_of ((set_source s v).1) ≡ some s)

  restore_lem :
      (m s : Text) (u w : State)
      → TakesBack u
      → mode_of u ≡ some m
      → source_of u ≡ some s
      → (restore lab m s w).0 ≡ true
      → (mode_of ((restore lab m s w).1) ≡ some m) × (source_of ((restore lab m s w).1) ≡ some s)
  unfolding restore
  restore_lem m s u w takes hm hs h = elim (Bool-cases ((set_sync_mode m w).0)) [
    | inl e ↦
        let w1 = (set_sync_mode m w).1 in
        let sent : (set_source s w1).0 ≡ true = rw e at h in
        rw e (lab.set_source_keeps s w1 ∙ takes.0 m w hm e, takes.1 s w1 hs sent)
    | inr e ↦ cc (rw e at h)
  ]

  -- The two controls are as before.
  abbrev pub Kept : State → State → Type 0
  Kept w w' = (mode_of w' ≡ mode_of w) × (source_of w' ≡ source_of w)

  -- The controls have the names that the card has for the arguments; without a source only the
  -- mode is asked for.
  abbrev pub Selects : Text → Option Text → State → Type 0
  Selects name none w' = mode_of w' ≡ some name
  Selects name (some s) w' = (mode_of w' ≡ some name) × (source_of w' ≡ some s)

  abbrev pub Granted : Result Refusal (Text × Option Text) → State → Type 0
  Granted (err e) w' = ⊥
  Granted (ok (name, source)) w' = Selects name source w'

  -- By the outcome: the new settings, the old ones, or anything where the restoring failed.
  abbrev pub Settled : Result Refusal (Text × Option Text) → State → Outcome × State → Type 0
  Settled asked w (changed, w') = Granted asked w'
  Settled asked w (start_failed, w') = Granted asked w'
  Settled asked w (rate_changed, w') = Granted asked w'
  Settled asked w (rollback_failed, w') = Unit
  Settled asked w (other, w') = Kept w w'

  reads_back-Selects :
      (name : Text) (source : Option Text) (w : State)
      → reads_back lab name source w ≡ true
      → Selects name source w
  reads_back-Selects name none w h = reads-eq-some (mode_of w) name (ground (arith, h))
  reads_back-Selects name (some s) w h = (
    reads-eq-some (mode_of w) name (ground (arith, h)),
    reads-eq-some (source_of w) s (ground (arith, h)),
  )

  change-Selects :
      (name : Text) (source : Option Text) (w : State)
      → (change lab name source w).0 ≡ true
      → Selects name source ((change lab name source w).1)
  unfolding change
  change-Selects name source w h = elim (Bool-cases ((set_sync_mode name w).0)) [
    | inr e ↦ cc (rw e at h)
    | inl e ↦ elim (Bool-cases ((set_wanted_source lab source ((set_sync_mode name w).1)).0)) [
      | inr f ↦ cc (rw (e, f) at h)
      | inl f ↦ rw (e, f) (reads_back-Selects name source _ (rw (e, f) at h))
    ]
  ]

  Selects-Kept :
      (name : Text) (source : Option Text) (w w' : State)
      → Kept w w'
      → Selects name source w
      → Selects name source w'
  Selects-Kept name none w w' k h = k.0 ∙ h
  Selects-Kept name (some s) w w' k h = (k.0 ∙ h.0, k.1 ∙ h.1)

  settle-Settled :
      (name : Text) (source : Option Text) (running : List Text) (u w : State)
      → Selects name source w
      → Settled (ok (name, source)) u (settle lab running w)
  unfolding settle
  settle-Settled name source running u w h =
      let w1 = (service_start running w).1 in
      let kept = Selects-Kept name source w w1 (lab.service_start_keeps running w) h in
      elim (Bool-cases ((service_start running w).0)) [
        | inr e ↦ rw e kept
        | inl e ↦ elim (Bool-cases (rate_fits (lab.jack_rate w1))) [
          | inl f ↦ rw (e, f) kept
          | inr f ↦ rw (e, f) kept
        ]
      ]

  roll_back-Settled :
      (asked : Result Refusal (Text × Option Text)) (m s : Text) (running : List Text) (u w : State)
      → TakesBack u
      → mode_of u ≡ some m
      → source_of u ≡ some s
      → Settled asked u (roll_back lab m s running w)
  unfolding roll_back
  roll_back-Settled asked m s running u w takes hm hs =
      let w1 = (restore lab m s w).1 in
      let keeps = lab.service_start_keeps running w1 in
      elim (Bool-cases ((restore lab m s w).0)) [
        | inr e ↦ rw e tt
        | inl e ↦
            let (rm, rs) = restore_lem m s u w takes hm hs e in
            let kept : Kept u ((service_start running w1).1) =
              (keeps.0 ∙ rm ∙ sym hm, keeps.1 ∙ rs ∙ sym hs) in
            elim (Bool-cases ((service_start running w1).0)) [
              | inl f ↦ rw (e, f) kept
              | inr f ↦ rw (e, f) kept
            ]
      ]

  attempt-Settled :
      (name : Text) (source : Option Text) (m s : Text) (running : List Text) (u w : State)
      → TakesBack u
      → mode_of u ≡ some m
      → source_of u ≡ some s
      → Settled (ok (name, source)) u (attempt lab name source m s running w)
  unfolding attempt
  attempt-Settled name source m s running u w takes hm hs =
      elim (Bool-cases ((change lab name source w).0)) [
        | inl e ↦ rw e (settle-Settled name source running u _ (change-Selects name source w e))
        | inr e ↦ rw e (roll_back-Settled (ok (name, source)) m s running u _ takes hm hs)
      ]

  begin_change-Settled :
      (name : Text) (source : Option Text) (m s : Text) (w : State)
      → TakesBack w
      → mode_of w ≡ some m
      → source_of w ≡ some s
      → Settled (ok (name, source)) w (begin_change lab name source m s w)
  unfolding begin_change
  begin_change-Settled name source m s w takes hm hs =
      let running = lab.services_running w in
      let w1 = (lab.service_stop w).1 in
      elim (Bool-cases (rate_fits (lab.jack_rate w))) [
        | inr e ↦ rw e (refl, refl)
        | inl e ↦ elim (Bool-cases (length running == 0)) [
          | inl f ↦ rw (e, f) (attempt-Settled name source m s running w w takes hm hs)
          | inr f ↦ elim (Bool-cases ((lab.service_stop w).0)) [
            | inl g ↦ rw (e, f, g) (attempt-Settled name source m s running w w1 takes hm hs)
            | inr g ↦ rw (e, f, g) (lab.service_stop_keeps w)
          ]
        ]
      ]

  with_readings-Settled :
      (name : Text) (source old_mode old_source : Option Text) (w : State)
      → TakesBack w
      → mode_of w ≡ old_mode
      → source_of w ≡ old_source
      → Settled (ok (name, source)) w (with_readings lab name source old_mode old_source w)
  with_readings-Settled name source none old_source w takes hm hs = (refl, refl)
  with_readings-Settled name source (some m) none w takes hm hs = (refl, refl)
  with_readings-Settled name source (some m) (some s) w takes hm hs =
      begin_change-Settled name source m s w takes hm hs

  with_names-Settled :
      (asked : Result Refusal (Text × Option Text)) (w : State)
      → TakesBack w
      → Settled asked w (with_names lab asked w)
  with_names-Settled (err e) w takes = (refl, refl)
  with_names-Settled (ok (name, source)) w takes =
      with_readings-Settled name source (mode_of w) (source_of w) w takes refl refl

-- A call of `set_mode` ends with the settings that were asked for, or with the old ones; only an
-- outcome that names a failed restoring says nothing. A set that succeeds need not have taken the
-- new value; but a control that is set back to the text it had before takes it.
pub set_mode-Settled :
    (lab : Lab) (mode : Text) (source : Option Text) (w : lab.State)
    → TakesBack lab w
    → Settled lab (wanted mode source) w (set_mode lab mode source w)
unfolding set_mode
set_mode-Settled lab mode source w takes = with_names-Settled lab (wanted mode source) w takes
