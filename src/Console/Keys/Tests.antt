-- ===== src/Console/Keys/Tests.antt =====
-- A session of the console over whole numbers: a trim, the polarity and the master are changed.
use sc_adat_appliance.Base.{
  ℕ, ◌+◌, ◌-◌, ◌≡◌, refl, Bool, true, false, ◌&&◌, Option, none, some, List, [], ◌∷◌, ◌==◌, ltb,
  leb, if◌then◌else◌, drop, arith,
}
use sc_adat_appliance.Base.Names.{get, pop}
use sc_adat_appliance.Base.Bytes.{same}
use sc_adat_appliance.Base.Text.{Text, codes, strip, strip_right, strip_left, is_space}
use sc_adat_appliance.Console.{
  Floats, Definition, Confirmation, never, increase, always, params, Model, Answers, Contract,
  prompts,
}
use sc_adat_appliance.Console.Keys.{Key, left, right, enter, char, step, started, press_all}
use sc_adat_appliance.Console.Keys.Keeps.{IsTracked, IsPlaced}
use sc_adat_appliance.Console.Keys.Session.{step-IsGuarded, press_all-IsTracked, press_all-IsPlaced}

abbrev digit : Text → Option ℕ
digit [] = none
digit (n ∷ []) = if leb b'0' n && leb n b'9' then some (n - b'0') else none
digit (n ∷ m ∷ more) = none

abbrev whole : Floats
whole = record {
  Float = ℕ;
  equal = λ x y. x == y;
  less = ltb;
  plus = λ x y. x + y;
  apart = λ x y. (x - y) + (y - x);
  negated = λ x. 0;
  log20 = λ x. x;
  exp20 = λ x. x;
  raised = λ x. x;
  finite = λ x. true;
  truncates = λ x. x == 0;
  parse_float = digit;
  minus_one = 0;
  zero = 0;
  half = 0;
  one = 1;
  two = 200;
  tiny = 0;
  minus_80 = 0;
  trim_min = 0;
  trim_max = 100;
}

abbrev decibels : Confirmation → Definition ℕ
decibels confirmation = record {
  boolean = false;
  enumerated = false;
  decibels = true;
  steps = [];
  fine = some 1;
  coarse = some 3;
  confirmation = confirmation;
}

abbrev polarity : Definition ℕ
polarity = record {
  boolean = false;
  enumerated = true;
  decibels = false;
  steps = 0 ∷ 1 ∷ [];
  fine = none;
  coarse = none;
  confirmation = always;
}

abbrev defined : Text → Option (Definition ℕ)
defined key =
    if same key (codes "master")
    then some (decibels increase)
    else if same key (codes "trim0")
    then some (decibels never)
    else if same key (codes "polarity0")
    then some polarity
    else none

abbrev contract : Contract ℕ
contract = record {
  definition_of = defined;
  validate_parameter = λ key v. if leb v 150 then some v else none;
  is_trim = λ key. same key (codes "trim0");
  is_pos_y = λ key. false;
  channel_fields = 1;
  group_fields = 1;
  channel_key = λ row param. codes "trim0";
  group_key = λ row param. codes "level0";
  mute_key = λ row. codes "mute0";
  hpf_key = λ row. codes "hpf0";
  polarity_key = λ row. codes "polarity0";
  bypass_key = λ row. codes "bypass0";
  shown = λ d v. [];
}

abbrev initial : List (Text × ℕ)
initial = (codes "trim0", 10) ∷ (codes "polarity0", 1) ∷ (codes "master", 20) ∷ []

abbrev answer : Bool → ℕ → Answers ℕ
answer confirmed v = record { confirmed = confirmed; readback = some v; fresh = none }

-- The trim is raised and lowered again, the polarity is inverted, and raising the master is refused.
abbrev keys : List (Key × Answers ℕ)
keys =
    (right, answer true 0)
    ∷ (right, answer true 11)
    ∷ (left, answer true 10)
    ∷ (char b'p', answer true 0)
    ∷ (char b'3', answer true 0)
    ∷ (right, answer true 0)
    ∷ (right, answer false 21)
    ∷ []

keys_changed :
    (press_all whole contract keys (started whole contract initial)).changed
    ≡ (codes "polarity0", 0) ∷ []
unfolding press_all started same get pop
keys_changed = refl

abbrev at_master : Model ℕ
at_master = record {
  state = initial;
  initial = initial;
  changed = [];
  page = 3;
  row = 0;
  param = 0;
  focus = params;
  coarse = false;
  editing = none;
}

master_sent :
    (step whole contract right (answer true 21) at_master).sent ≡ some (codes "master", 21)
unfolding step same get
master_sent = refl

-- A digit typed into an empty entry and Enter.
entry_sent :
    (step whole contract enter
      (answer true 5)
      (step whole contract
        (char b'5')
        (answer true 0)
        (record at_master { page = 1; editing = some (codes "trim0", []) })).model).sent
    ≡ some (codes "trim0", 5)
unfolding step same get strip strip_right strip_left is_space drop
entry_sent = refl

step-IsGuarded_example :
    ((u : ℕ) × ((if leb u 150 then some u else none) ≡ some 21))
    × (prompts whole contract (codes "master") 21 at_master ≡ true → true ≡ true)
step-IsGuarded_example =
    step-IsGuarded whole contract (omega arith) (omega arith) right (answer true 21) at_master
      (codes "master") 21 master_sent

press_all-IsTracked_example :
    IsTracked whole contract (press_all whole contract keys (started whole contract initial))
press_all-IsTracked_example =
    press_all-IsTracked whole contract (omega arith) (omega arith) initial keys (λ v. ground arith)
      (refl, (refl, (refl, (refl, (refl, (refl, (refl, tt)))))))

press_all-IsPlaced_example :
    IsPlaced whole contract (press_all whole contract keys (started whole contract initial))
press_all-IsPlaced_example =
    press_all-IsPlaced whole contract (omega arith) (omega arith) initial keys
