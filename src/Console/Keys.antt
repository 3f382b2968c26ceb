-- ===== src/Console/Keys.antt =====
-- mixer/console.py: `_next_page`, the page keys of `draw`, `_begin_edit`, `_handle_edit` and
-- `_handle_key`, one step for each key.
pub mod Keeps
pub mod Steps
pub mod Session
mod Tests
use sc_adat_appliance.Base.{
  ℕ, zero, suc, ◌+◌, ◌-◌, ◌%◌, Bool, true, false, not, ◌&&◌, ◌||◌, Option, none, some, List, [],
  ◌∷◌, ◌++◌, ◌==◌, ltb, leb, if◌then◌else◌,
}
use sc_adat_appliance.Base.Names.{get, put}
use sc_adat_appliance.Base.Text.{Text, codes}
use sc_adat_appliance.Console.{
  Floats, Definition, Focus, items, params, Model, Answers, Sent, Contract, write, bool_toggle,
  adjust_parameter, or_value, moved, validate, parse_direct_entry,
}

pub data Key : Type 0 where
  up down left right escape enter backspace tab : Key
  char : ℕ → Key

module _ (f : Floats) (c : Contract f.Float) where
  abbrev V : Type 0
  V = f.Float

  abbrev still : Model V → Sent V
  still m = record { model = m; sent = none; failed = false }

  unfoldable pub go_to : ℕ → Model V → Model V
  go_to page m = record m { page = page; row = 0; param = 0; focus = items; editing = none }

  -- `_next_page`
  unfoldable pub next_page : Model V → Model V
  unfolding go_to
  next_page m = go_to (m.page % 3 + 1) m

  unfoldable pub rows : ℕ → ℕ
  rows page = if page == 1 then 16 else if page == 2 then 8 else 1

  unfoldable pub fields : ℕ → ℕ
  fields page = if page == 1 then c.channel_fields else if page == 2 then c.group_fields else 1

  unfoldable pub selected_key : Model V → Text
  selected_key m =
      if m.page == 1
      then c.channel_key m.row m.param
      else if m.page == 2
      then c.group_key m.row m.param
      else codes "master"

  abbrev pub begin_defined : Text → Option (Definition V) → Model V → Model V
  begin_defined key none m = m
  begin_defined key (some d) m =
      if d.boolean || d.enumerated
      then m
      else record m { editing = some (key, c.shown d (or_value f c f.zero (get key m.state))) }

  unfoldable pub begin_edit : Model V → Model V
  unfolding selected_key
  begin_edit m = begin_defined (selected_key m) (c.definition_of (selected_key m)) m

  unfoldable pub without_last : Text → Text
  without_last [] = []
  without_last (x ∷ []) = []
  without_last (x ∷ y ∷ ys) = x ∷ without_last (y ∷ ys)

  abbrev edit_done : Sent V → Sent V
  edit_done s = record s { model = record s.model { editing = none } }

  -- An entry that `write` rejects stays in the editor.
  abbrev pub enter_value : Text → Option V → Option V → Bool → Answers V → Model V → Sent V
  enter_value key none valid confirm w m = still m
  enter_value key (some v) none confirm w m = still m
  enter_value key (some v) (some valid) confirm w m = edit_done (write f c key v (some confirm) w m)

  abbrev pub is_numeric : ℕ → Bool
  is_numeric n = leb b'0' n && leb n b'9' || n == b'.' || n == b'-'

  abbrev pub validated_entry : Text → Option V → Option V
  validated_entry key none = none
  validated_entry key (some v) = validate f c key v

  -- The escape, Enter and page keys have taken their part before: see `step`.
  unfoldable pub handle_edit : Text → Text → Key → Answers V → Model V → Sent V
  unfolding without_last write validate parse_direct_entry
  handle_edit key text escape w m = still (record m { editing = none })
  handle_edit key text backspace w m = still (record m { editing = some (key, without_last text) })
  handle_edit key text enter w m =
      enter_value key (parse_direct_entry f c text key)
        (validated_entry key (parse_direct_entry f c text key)) w.confirmed w m
  handle_edit key text (char n) w m =
      still (if is_numeric n then record m { editing = some (key, text ++ n ∷ []) } else m)
  handle_edit key text other w m = still m

  -- `state.update(fresh)`
  unfoldable pub updated : List (Text × V) → List (Text × V) → List (Text × V)
  unfolding put
  updated [] state = state
  updated ((k, v) ∷ rest) state = updated rest (put k v state)

  abbrev pub refreshed : Option (Bool × List (Text × V)) → Model V → Model V
  refreshed none m = m
  refreshed (some (fits, fresh)) m = if fits then record m { state = updated fresh m.state } else m

  abbrev pub move : Bool → Focus → Model V → Model V
  move forward items m = record m { row = moved f c forward m.row (rows m.page - 1) }
  move forward params m = record m { param = moved f c forward m.param (fields m.page - 1) }

  abbrev pub aside : Bool → Focus → Answers V → Model V → Sent V
  aside forward items w m = still (record m { focus = params })
  aside forward params w m = adjust_parameter f c (selected_key m) forward (some w.confirmed) w m

  abbrev pub enter_in : Focus → Model V → Model V
  enter_in items m = m
  enter_in params m = begin_edit m

  -- Inverting the polarity asks the operator.
  abbrev pub invert : Answers V → Model V → Sent V
  invert w m =
      let key = c.polarity_key m.row in
      write f c key
        (if f.equal (or_value f c f.one (get key m.state)) f.one then f.minus_one else f.one)
        (some w.confirmed) w m

  abbrev pub letter : ℕ → Answers V → Model V → Sent V
  letter n w m =
      if n == b'c'
      then still (record m { coarse = not m.coarse })
      else if n == b'r'
      then still (refreshed w.fresh m)
      else if n == b'm' && m.page == 1
      then bool_toggle f c (c.mute_key m.row) w m
      else if n == b'h' && m.page == 1
      then bool_toggle f c (c.hpf_key m.row) w m
      else if n == b'p' && m.page == 1
      then invert w m
      else if n == b'b' && m.page == 2
      then bool_toggle f c (c.bypass_key m.row) w m
      else still m

  unfoldable pub handle_key : Key → Answers V → Model V → Sent V
  unfolding rows fields moved selected_key adjust_parameter begin_edit updated bool_toggle write
  handle_key escape w m = still (record m { focus = items })
  handle_key up w m = still (move false m.focus m)
  handle_key down w m = still (move true m.focus m)
  handle_key left w m = aside false m.focus w m
  handle_key right w m = aside true m.focus w m
  handle_key enter w m = still (enter_in m.focus m)
  handle_key (char n) w m = letter n w m
  handle_key other w m = still m

  abbrev pub handle : Option (Text × Text) → Key → Answers V → Model V → Sent V
  handle none key w m = handle_key key w m
  handle (some (edited, text)) key w m = handle_edit edited text key w m

  abbrev pub is_page : ℕ → Bool
  is_page n = n == b'1' || n == b'2' || n == b'3'

  -- A key of `draw` in a terminal that is large enough; `q` and `?` do nothing to the model.
  unfoldable pub step : Key → Answers V → Model V → Sent V
  unfolding next_page go_to handle_key handle_edit
  step tab w m = still (next_page m)
  step (char n) w m =
      if n == b'q' || n == b'Q' || n == b'?'
      then still m
      else if is_page n
      then still (go_to (n - b'0') m)
      else handle m.editing (char n) w m
  step key w m = handle m.editing key w m

  -- The model after `start`, which has checked the contract version and the keys, at the first key.
  unfoldable pub started : List (Text × V) → Model V
  started all = record {
    state = all;
    initial = all;
    changed = [];
    page = 1;
    row = 0;
    param = 0;
    focus = items;
    coarse = false;
    editing = none;
  }

  -- A `failed` step ends the console: such a session is one that has no further keys.
  unfoldable pub press_all : List (Key × Answers V) → Model V → Model V
  unfolding step
  press_all [] m = m
  press_all ((key, w) ∷ keys) m = press_all keys (step key w m).model
