-- ===== src/Clock.antt =====
-- audio/clock.py: what `preflight` and `status` decide from the observed clock.
pub mod Health
pub mod Change
mod Tests
use sc_adat_appliance.Base.{
  ℕ, ◌+◌, not, Bool, true, false, ◌&&◌, ◌||◌, Option, none, some, List, [], ◌∷◌, leb, ◌==◌,
  if◌then◌else◌,
}
use sc_adat_appliance.Base.Bytes.{same}
use sc_adat_appliance.Base.Text.{Text, codes}
use sc_adat_appliance.Base.Result.{Result, ok, err, raise_if, ◌>>=◌, ◌>>◌}

-- What the ALSA controls, JACK and the driver's file say: the raw texts of "Sync Mode" and
-- "Preferred Sync Source", the sync checks of the three ADAT ports, and the two rates, which are
-- `none` when there is no answer.
pub record Observed : Type 0 where
  pub mode : Text
  pub source : Text
  pub adat1 : Text
  pub adat2 : Text
  pub adat3 : Text
  pub jack_rate : Option ℕ
  pub hardware_rate : Option ℕ

-- `str.lower()` of ASCII, which the item names of the card are.
abbrev pub lower_char : ℕ → ℕ
lower_char c = if leb b'A' c && leb c b'Z' then c + 32 else c

unfoldable pub lower : Text → Text
lower [] = []
lower (c ∷ cs) = lower_char c ∷ lower cs

-- `text.replace(" in", "")`
unfoldable pub drop_in : Text → Text
drop_in (a ∷ b ∷ c ∷ rest) =
    let later = drop_in rest in
    let kept = drop_in (b ∷ c ∷ rest) in
    if a == 32 && b == b'i' && c == b'n' then later else a ∷ kept
drop_in t = t

-- `source.lower().replace(" in", "")`
unfoldable pub selected : Text → Text
selected source = drop_in (lower source)

-- `adats.get(name)`, with the raw text of the port.
unfoldable pub adat : Observed → Text → Option Text
adat o name =
    if same name (codes "adat1")
    then some (o.adat1)
    else if same name (codes "adat2")
    then some (o.adat2)
    else if same name (codes "adat3")
    then some (o.adat3)
    else none

-- `STATE_NAMES.get(raw)`
unfoldable pub state_name : Text → Option Text
state_name raw =
    if same raw (codes "No Lock")
    then some (codes "No Lock")
    else if same raw (codes "Lock")
    then some (codes "Lock but not Sync")
    else if same raw (codes "No Lock Sync")
    then some (codes "No Lock")
    else if same raw (codes "Lock Sync")
    then some (codes "Lock Sync")
    else none

abbrev pub is_lock_sync : Option Text → Bool
is_lock_sync none = false
is_lock_sync (some t) = same t (codes "Lock Sync")

-- `STATE_NAMES.get(adats[selected]) == "Lock Sync"`, where the port is there.
abbrev pub port_locked : Option Text → Bool
port_locked none = false
port_locked (some raw) = is_lock_sync (state_name raw)

pub data ClockError : Type 0 where
  jack_running : ℕ → ClockError
  wrong_rate : Option ℕ → ClockError
  not_locked : Text → ClockError
  word_clock : ClockError
  unsupported_mode : Text → ClockError

abbrev pub jack_stopped : Option ℕ → Result ClockError (Unit {0})
jack_stopped none = ok tt
jack_stopped (some rate) = err (jack_running rate)

abbrev pub is_48k : Option ℕ → Bool
is_48k none = false
is_48k (some rate) = rate == 48000

-- The tests on the mode at the end of `preflight`.
unfoldable pub check_mode : Observed → Result ClockError (Unit {0})
check_mode o =
    if same (o.mode) (codes "AutoSync")
    then raise_if (not (port_locked (adat o (selected (o.source))))) (not_locked (o.source))
    else if same (o.mode) (codes "Word Clock")
    then err word_clock
    else if not (same (o.mode) (codes "Master"))
    then err (unsupported_mode (o.mode))
    else ok tt

-- The tests of `preflight`, in order; it then prints and returns 0.
unfoldable pub preflight : Observed → Result ClockError (Unit {0})
preflight o = do
  jack_stopped (o.jack_rate)
  raise_if (not (is_48k (o.hardware_rate))) (wrong_rate (o.hardware_rate))
  check_mode o

-- `rate in (None, 48000)`
abbrev pub rate_fits : Option ℕ → Bool
rate_fits none = true
rate_fits (some rate) = rate == 48000

-- `healthy` of `status`: three assignments, each later one overriding.
unfoldable pub healthy : Observed → Bool
healthy o =
    if same (o.mode) (codes "Word Clock")
    then false
    else if same (o.mode) (codes "AutoSync")
    then port_locked (adat o (selected (o.source))) && rate_fits (o.jack_rate)
    else same (o.mode) (codes "Master") && rate_fits (o.jack_rate)
