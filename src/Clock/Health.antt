-- ===== src/Clock/Health.antt =====
-- `preflight` and `status` agree on what a usable clock is.
use sc_adat_appliance.Base.{◌≡◌, ◌↔◌, refl, true, false, none, some, arith}
use sc_adat_appliance.Base.Bytes.{same, same_iff}
use sc_adat_appliance.Base.Text.{Text, codes}
use sc_adat_appliance.Base.Result.{ok}
use sc_adat_appliance.Clock.{Observed, preflight, healthy, check_mode}

modes_apart : (m : Text) → same m (codes "AutoSync") ≡ true → same m (codes "Word Clock") ≡ false
modes_apart m h = rw ((same_iff m (codes "AutoSync")).0 h) (unfold same in refl)

-- The preflight passes exactly when JACK is stopped, the card runs at 48 kHz and the status is
-- healthy.
pub preflight-healthy :
    (o : Observed)
    → (preflight o ≡ ok tt)
      ↔ ((o.jack_rate ≡ none) × (o.hardware_rate ≡ some 48000) × (healthy o ≡ true))
unfolding preflight healthy check_mode
preflight-healthy o =
    let apart = modes_apart (o.mode) in
    (
      λ h. (ground (arith, h), ground (arith, h), ground (arith, h, apart)),
      λ h. ground (arith, h, apart),
    )
