-- ===== src/Clock/Tests.antt =====
-- A card whose source control does not take every value, and the theorems about the clock on it.
use sc_adat_appliance.Base.{
  ◌≡◌, refl, inl, inr, true, none, some, [], ◌∷◌, arith, if◌then◌else◌, Bool-cases,
}
use sc_adat_appliance.Base.Bytes.{same}
use sc_adat_appliance.Base.Text.{Text, codes}
use sc_adat_appliance.Clock.{Observed}
use sc_adat_appliance.Clock.Change.{
  Lab, wanted, set_mode, changed, rolled_back, roll_back, restore, attempt, begin_change, change,
  settle, mode_name, source_name,
}
use sc_adat_appliance.Clock.Change.Rollback.{TakesBack, Settled, set_mode-Settled}

abbrev locked : Observed
locked = record {
  mode = codes "AutoSync";
  source = codes "ADAT1 In";
  adat1 = codes "Lock Sync";
  adat2 = codes "No Lock";
  adat3 = codes "No Lock";
  jack_rate = none;
  hardware_rate = some 48000;
}

-- The mode and the source of a card.
record Card : Type 0 where
  mode : Text
  source : Text

-- The source control answers every set as done, and keeps any text but that of the second input.
abbrev store_source : Text → Card → Card
store_source t c = if same t (codes "ADAT2 In") then record c { source = t } else c

store_source_keeps : (t : Text) (c : Card) → some (store_source t c).mode ≡ some c.mode
store_source_keeps t c = elim (Bool-cases (same t (codes "ADAT2 In"))) [
  | inl e ↦ rw e refl
  | inr e ↦ rw e refl
]

abbrev bench : Lab
bench = record {
  State = Card;
  mode_of = λ c. some c.mode;
  source_of = λ c. some c.source;
  jack_rate = λ c. some 48000;
  services_running = λ c. codes "sc-audio" ∷ [];
  set_sync_mode = λ t c. (true, record c { mode = t });
  set_source = λ t c. (true, store_source t c);
  service_stop = λ c. (true, c);
  service_start = λ r c. (true, c);
  set_source_keeps = store_source_keeps;
  service_stop_keeps = λ c. (refl, refl);
  service_start_keeps = λ r c. (refl, refl);
}

abbrev card : Card
card = record { mode = codes "Master"; source = codes "ADAT2 In" }

autosync_changes :
    set_mode bench (codes "autosync") (some (codes "adat2")) card
    ≡ (changed, record { mode = codes "AutoSync"; source = codes "ADAT2 In" })
unfolding set_mode wanted mode_name source_name begin_change attempt change settle same
autosync_changes = refl

-- The readback finds that the source was not taken.
autosync_rolls_back :
    set_mode bench (codes "autosync") (some (codes "adat1")) card ≡ (rolled_back, card)
unfolding set_mode wanted mode_name source_name begin_change attempt change roll_back restore same
autosync_rolls_back = refl

stored_back :
    (s : Text) (v : Card)
    → same s (codes "ADAT2 In") ≡ true
    → some (store_source s v).source ≡ some s
stored_back s v e = rw e refl

second_input : same (codes "ADAT2 In") (codes "ADAT2 In") ≡ true
unfolding same
second_input = refl

takes_back : TakesBack bench card
takes_back = (
  λ m v e set. refl,
  λ s v e set.
      let eq : codes "ADAT2 In" ≡ s = ground (arith, e) in stored_back s v (rw (← eq) second_input),
)

set_mode-Settled_example :
    Settled bench
      (wanted (codes "autosync") (some (codes "adat1")))
      card
      (set_mode bench (codes "autosync") (some (codes "adat1")) card)
set_mode-Settled_example =
    set_mode-Settled bench (codes "autosync") (some (codes "adat1")) card takes_back
