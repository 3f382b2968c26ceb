-- ===== src/Console.antt =====
-- mixer/console.py: ConsoleModel and the handling of its keys. Messages on the screen are left out.
-- Floats, the contract's definitions and `validate_parameter` are parameters, and what the
-- mixer, the operator and a refresh answer is given with each key.
pub mod Sends
pub mod Keys
use sc_adat_appliance.Base.{
  ℕ, zero, suc, ◌+◌, ◌-◌, ◌%◌, ◌≡◌, Bool, true, false, not, ◌&&◌, ◌||◌, Option, none, some, List,
  [], ◌∷◌, ◌++◌, ◌==◌, ltb, leb, if◌then◌else◌, length, get_elem?, take, drop,
}
use sc_adat_appliance.Base.Names.{get, put, pop}
use sc_adat_appliance.Base.Bytes.{same}
use sc_adat_appliance.Base.Text.{Text, codes, strip}

-- Python's floats and the functions of `math` that are used: `log20 x` is `20.0 * math.log10(x)`,
-- `exp20 x` is `10.0 ** (x / 20.0)`, `raised x` is `x * (1.0 + 1e-7)`, `apart x y` is `abs(x - y)`, and
-- `truncates x` says that `int(x)` is 0. The OverflowError of a power is left out.
pub record Floats : Type 1 where
  pub Float : Type 0
  pub equal : Float → Float → Bool
  pub less : Float → Float → Bool
  pub plus : Float → Float → Float
  pub apart : Float → Float → Float
  pub negated : Float → Float
  pub log20 : Float → Float
  pub exp20 : Float → Float
  pub raised : Float → Float
  pub finite : Float → Bool
  pub truncates : Float → Bool
  -- `float(text)`
  pub parse_float : Text → Option Float
  pub minus_one : Float
  pub zero : Float
  pub half : Float
  pub one : Float
  pub two : Float
  pub tiny : Float
  pub minus_80 : Float
  pub trim_min : Float
  pub trim_max : Float

-- The definition's "confirmation".
pub data Confirmation : Type 0 where
  never increase always : Confirmation

pub record Definition (A : Type 0) : Type 0 where
  pub boolean : Bool
  pub enumerated : Bool
  pub decibels : Bool
  pub steps : List A
  pub fine : Option A
  pub coarse : Option A
  pub confirmation : Confirmation

pub data Focus : Type 0 where
  items params : Focus

pub record Model (A : Type 0) : Type 0 where
  pub state : List (Text × A)
  pub initial : List (Text × A)
  pub changed : List (Text × A)
  pub page : ℕ
  pub row : ℕ
  pub param : ℕ
  pub focus : Focus
  pub coarse : Bool
  pub editing : Option (Text × Text)

-- What the world answers to one key: the operator to a prompt, the mixer to a set (its readback, or
-- an error), and to a refresh (whether the contract version fits, and the state).
pub record Answers (A : Type 0) : Type 0 where
  pub confirmed : Bool
  pub readback : Option A
  pub fresh : Option (Bool × List (Text × A))

-- The end of a call: the model, and what was sent to the mixer. `failed` is a TypeError, which
-- nothing in the console catches; a ValueError is caught and leaves the model as it is.
pub record Sent (A : Type 0) : Type 0 where
  pub model : Model A
  pub sent : Option (Text × A)
  pub failed : Bool

-- The contract and what the fields of the pages are called.
pub record Contract (A : Type 0) : Type 0 where
  pub definition_of : Text → Option (Definition A)
  -- `validate_parameter`; `none` is a ValueError
  pub validate_parameter : Text → A → Option A
  pub is_trim : Text → Bool
  pub is_pos_y : Text → Bool
  pub channel_fields : ℕ
  pub group_fields : ℕ
  pub channel_key : ℕ → ℕ → Text
  pub group_key : ℕ → ℕ → Text
  pub mute_key : ℕ → Text
  pub hpf_key : ℕ → Text
  pub polarity_key : ℕ → Text
  pub bypass_key : ℕ → Text
  -- the text that `_begin_edit` starts with
  pub shown : Definition A → A → Text

module _ (f : Floats) (c : Contract f.Float) where
  abbrev V : Type 0
  V = f.Float

  abbrev smaller : V → V → V
  smaller x y = if f.less y x then y else x

  abbrev larger : V → V → V
  larger x y = if f.less x y then y else x

  -- `dbamp`
  unfoldable pub dbamp : V → Option V
  dbamp x = if f.finite x then some (larger f.tiny (smaller f.two (f.exp20 x))) else none

  unfoldable pub clamp_db : V → V
  clamp_db x = larger f.trim_min (smaller f.trim_max x)

  abbrev pub or_value : V → Option V → V
  or_value d none = d
  or_value d (some v) = v

  abbrev amp_from_db : Option V → Option V
  amp_from_db none = none
  amp_from_db (some v) = dbamp v

  -- `removesuffix`
  abbrev without : Text → Text → Text
  without suffix text =
      let n = length text - length suffix in if same (drop n text) suffix then take n text else text

  abbrev parse_defined : Text → Text → Option (Definition V) → Option V
  parse_defined value key none = none
  parse_defined value key (some d) =
      if c.is_trim key
      then f.parse_float (strip (without (codes "dB") value))
      else if d.decibels
      then amp_from_db (f.parse_float (strip (without (codes "dB") value)))
      else f.parse_float (strip (without (codes "Hz") value))

  unfoldable pub parse_direct_entry : Text → Text → Option V
  unfolding dbamp
  parse_direct_entry text key =
      if length (strip text) == 0
      then none
      else parse_defined (strip text) key (c.definition_of key)

  abbrev pub validated : Text → Option V → Option V
  validated key none = none
  validated key (some v) = c.validate_parameter key v

  unfoldable pub validate : Text → V → Option V
  unfolding dbamp
  validate key v =
      if c.is_pos_y key
      then none
      else if c.is_trim key
      then validated key (dbamp v)
      else c.validate_parameter key v

  -- Whether a value is above the old one.
  abbrev raises : V → Option V → Bool
  raises v none = false
  raises v (some old) = f.less (f.raised old) v

  abbrev pub asked : Confirmation → V → Option V → Bool
  asked never v old = false
  asked increase v old = raises v old
  asked always v old = true

  abbrev pub confirmation_of : Option (Definition V) → Confirmation
  confirmation_of none = never
  confirmation_of (some d) = d.confirmation

  -- Whether `write` has a prompt.
  unfoldable pub prompts : Text → V → Model V → Bool
  prompts key v m = asked (confirmation_of (c.definition_of key)) v (get key m.state)

  abbrev pub same_entry : Option V → V → Bool
  same_entry none v = false
  same_entry (some old) v = f.equal old v

  -- The readback is stored, and listed as changed unless it is the initial value.
  unfoldable pub acknowledge : Text → V → Model V → Model V
  acknowledge key v m = record m {
    state = put key v m.state;
    changed = if same_entry (get key m.initial) v then pop key m.changed else put key v m.changed;
  }

  abbrev unsent : Model V → Sent V
  unsent m = record { model = m; sent = none; failed = false }

  abbrev acknowledged : Text → V → Option V → Model V → Model V
  acknowledged key v none m = m
  acknowledged key v (some readback) m = acknowledge key readback m

  -- `confirm` is `none` where the caller gives no function.
  abbrev allowed : Option Bool → Bool
  allowed none = false
  allowed (some yes_pressed) = yes_pressed

  abbrev pub write_valid : Text → Option V → Option Bool → Answers V → Model V → Sent V
  write_valid key none confirm w m = unsent m
  write_valid key (some v) confirm w m =
      if prompts key v m && not (allowed confirm)
      then unsent m
      else record { model = acknowledged key v w.readback m; sent = some (key, v); failed = false }

  unfoldable pub write : Text → V → Option Bool → Answers V → Model V → Sent V
  unfolding validate prompts acknowledge
  write key v confirm w m = write_valid key (validate key v) confirm w m

  unfoldable pub bool_toggle : Text → Answers V → Model V → Sent V
  unfolding write
  bool_toggle key w m =
      write key (if f.truncates (or_value f.zero (get key m.state)) then f.one else f.zero) none w m

  abbrev write_some : Text → Option V → Option Bool → Answers V → Model V → Sent V
  write_some key none confirm w m = unsent m
  write_some key (some v) confirm w m = write key v confirm w m

  unfoldable pub gain_adjust : Text → V → Option Bool → Answers V → Model V → Sent V
  unfolding write clamp_db dbamp
  gain_adjust key delta confirm w m =
      let current = or_value f.one (get key m.state) in
      let current_db =
        if f.less current f.tiny || f.equal current f.tiny then f.minus_80 else f.log20 current in
      write_some key
        (if c.is_trim key
          then some (clamp_db (f.plus current_db delta))
          else dbamp (f.plus current_db delta))
        confirm w m

  -- The index of the nearest step, the first of several.
  unfoldable pub nearest : V → ℕ → ℕ → V → List V → ℕ
  nearest current i best at [] = best
  nearest current i best at (s ∷ ss) =
      if f.less (f.apart s current) at
      then nearest current (suc i) i (f.apart s current) ss
      else nearest current (suc i) best at ss

  -- `max(0, min(n, i + direction))`
  unfoldable pub moved : Bool → ℕ → ℕ → ℕ
  moved true i n = if ltb i n then suc i else n
  moved false i n = if ltb n (i - 1) then n else i - 1

  abbrev signed : Bool → V → V
  signed true step = step
  signed false step = f.negated step

  -- The step is `none` for a definition without increments: multiplying it is a TypeError.
  abbrev pub adjust_by :
      Text → Definition V → Bool → Option V → Option Bool → Answers V → Model V → Sent V
  adjust_by key d up none confirm w m = record { model = m; sent = none; failed = true }
  adjust_by key d up (some step) confirm w m =
      if d.decibels
      then gain_adjust key (signed up step) confirm w m
      else write key (f.plus (or_value f.half (get key m.state)) (signed up step)) confirm w m

  abbrev pub adjust_steps :
      Text → Definition V → List V → Bool → Option Bool → Answers V → Model V → Sent V
  adjust_steps key d [] up confirm w m =
      adjust_by key d up (if m.coarse then d.coarse else d.fine) confirm w m
  adjust_steps key d (s ∷ ss) up confirm w m =
      let current = or_value s (get key m.state) in
      let index = nearest current 1 0 (f.apart s current) ss in
      write_some key (get_elem? (s ∷ ss) (moved up index (length ss))) confirm w m

  abbrev pub adjust_defined :
      Text → Option (Definition V) → Bool → Option Bool → Answers V → Model V → Sent V
  adjust_defined key none up confirm w m = unsent m
  adjust_defined key (some d) up confirm w m =
      if d.boolean then bool_toggle key w m else adjust_steps key d d.steps up confirm w m

  unfoldable pub adjust_parameter : Text → Bool → Option Bool → Answers V → Model V → Sent V
  unfolding bool_toggle gain_adjust nearest moved write
  adjust_parameter key up confirm w m = adjust_defined key (c.definition_of key) up confirm w m
