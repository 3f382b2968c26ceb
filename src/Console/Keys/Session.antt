-- ===== src/Console/Keys/Session.antt =====
-- What holds of the console's model at every key of a session.
use sc_adat_appliance.Base.{◌<◌, ◌≡◌, refl, true, Option, none, some, List, [], ◌∷◌, All, arith}
use sc_adat_appliance.Base.Names.{get}
use sc_adat_appliance.Base.Text.{Text}
use sc_adat_appliance.Console.{Floats, Model, Answers, Contract}
use sc_adat_appliance.Console.Sends.{IsGuarded}
use sc_adat_appliance.Console.Keys.{Key, rows, fields, step, started, press_all}
use sc_adat_appliance.Console.Keys.Keeps.{difference, IsTracked, IsPlaced}
use sc_adat_appliance.Console.Keys.Steps.{step-Keeps}

module _ (f : Floats) (c : Contract f.Float) (hc : 0 < c.channel_fields)
    (hg : 0 < c.group_fields) where
  -- A key sends at most one value, one that `validate_parameter` has returned; and where a change of
  -- this kind has a prompt, the operator has answered it with yes. The contract says which changes
  -- have a prompt. The pages have fields.
  pub step-IsGuarded :
      (key : Key) (w : Answers f.Float) (m : Model f.Float) → IsGuarded f c w m (step f c key w m)
  step-IsGuarded key w m = (step-Keeps f c key w m hc hg).guarded

  started-IsTracked :
      (all : List (Text × f.Float))
      → ((v : f.Float) → f.equal v v ≡ true)
      → IsTracked f c (started f c all)
  unfolding started get
  started-IsTracked all reflexive key = go (get key all)
    where
      go : (o : Option f.Float) → none ≡ difference f c o o
      go none = refl
      go (some v) = rw (reflexive v) refl

  started-IsPlaced : (all : List (Text × f.Float)) → IsPlaced f c (started f c all)
  unfolding started rows fields
  started-IsPlaced all = record {
    page_range = ground arith;
    row_range = ground arith;
    field_range = hc;
  }

  abbrev pub IsUnrefreshed : (Key × Answers f.Float) → Type 0
  IsUnrefreshed (key, w) = w.fresh ≡ none

  kept-IsTracked :
      (keys : List (Key × Answers f.Float)) (m : Model f.Float)
      → All IsUnrefreshed keys
      → IsTracked f c m
      → IsTracked f c (press_all f c keys m)
  unfolding press_all
  kept-IsTracked [] m a t = t
  kept-IsTracked ((key, w) ∷ keys) m (a, more) t =
      kept-IsTracked keys _ more ((step-Keeps f c key w m hc hg).tracked a t)

  kept-IsPlaced :
      (keys : List (Key × Answers f.Float)) (m : Model f.Float)
      → IsPlaced f c m
      → IsPlaced f c (press_all f c keys m)
  unfolding press_all
  kept-IsPlaced [] m p = p
  kept-IsPlaced ((key, w) ∷ keys) m p =
      kept-IsPlaced keys _ ((step-Keeps f c key w m hc hg).placed p)

  -- After any keys, whatever the operator and the mixer answered to them, and where no refresh of the
  -- state is answered: a control is listed as changed exactly when its value is not the one the
  -- session began with, and with the value it has now. The pages have fields, and a value equals
  -- itself.
  pub press_all-IsTracked :
      (all : List (Text × f.Float)) (keys : List (Key × Answers f.Float))
      → ((v : f.Float) → f.equal v v ≡ true)
      → All IsUnrefreshed keys
      → IsTracked f c (press_all f c keys (started f c all))
  press_all-IsTracked all keys reflexive a =
      kept-IsTracked keys _ a (started-IsTracked all reflexive)

  -- After any keys and answers the page is 1, 2 or 3, the row is one of the page and the parameter is
  -- one of its fields. The pages have fields.
  pub press_all-IsPlaced :
      (all : List (Text × f.Float)) (keys : List (Key × Answers f.Float))
      → IsPlaced f c (press_all f c keys (started f c all))
  press_all-IsPlaced all keys = kept-IsPlaced keys _ (started-IsPlaced all)
