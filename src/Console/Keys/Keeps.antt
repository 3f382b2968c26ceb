-- ===== src/Console/Keys/Keeps.antt =====
-- What a key keeps, and the keys that send nothing and leave the values alone.
use sc_adat_appliance.Base.{
  ℕ, ◌-◌, ◌≤◌, ◌<◌, ◌≡◌, ◌⊎◌, refl, inl, inr, Bool, true, false, Option, none, some, if◌then◌else◌,
  Bool-cases, arith,
}
use sc_adat_appliance.Base.Names.{get, get-put, get-pop}
use sc_adat_appliance.Base.Bytes.{same, same_iff}
use sc_adat_appliance.Base.Text.{Text}
use sc_adat_appliance.Console.{
  Floats, Focus, items, params, Model, Answers, Sent, Contract, same_entry, acknowledge, moved,
}
use sc_adat_appliance.Console.Sends.{Sends, IsGuarded}
use sc_adat_appliance.Console.Keys.{still, rows, fields, move}

module _ (f : Floats) (c : Contract f.Float) where
  -- What is listed for a key: its value, unless it is the initial one.
  abbrev pub difference : Option f.Float → Option f.Float → Option f.Float
  difference old none = none
  difference old (some v) = if same_entry f c old v then none else some v

  abbrev pub IsTracked : Model f.Float → Type 0
  IsTracked m = (key : Text) → get key m.changed ≡ difference (get key m.initial) (get key m.state)

  -- The cursor is on one of the three pages, at a row and at a field of the page.
  pub record IsPlaced (m : Model f.Float) : Type 0 where
    pub page_range : (1 ≤ m.page) × (m.page ≤ 3)
    pub row_range : m.row < rows f c m.page
    pub field_range : m.param < fields f c m.page

  pub acknowledge-IsTracked :
      (key : Text) (v : f.Float) (m : Model f.Float)
      → IsTracked m
      → IsTracked (acknowledge f c key v m)
  unfolding acknowledge
  acknowledge-IsTracked key v m h q = elim (Bool-cases (same key q)) [
    | inl here ↦
        let eq : key ≡ q = (same_iff key q).0 here in
        elim (Bool-cases (same_entry f c (get key m.initial) v)) [
          | inl back ↦
              rw (back, get-pop q key m.changed, get-put q key v m.state, here, ← eq, back) refl
          | inr new ↦
              rw (new, get-put q key v m.changed, get-put q key v m.state, here, ← eq, new) refl
        ]
    | inr other ↦ elim (Bool-cases (same_entry f c (get key m.initial) v)) [
      | inl back ↦ rw (back, get-pop q key m.changed, get-put q key v m.state, other) (h q)
      | inr new ↦ rw (new, get-put q key v m.changed, get-put q key v m.state, other) (h q)
    ]
  ]

  -- What a step keeps. The list is kept where no refresh is answered.
  pub record Keeps (w : Answers f.Float) (m : Model f.Float) (s : Sent f.Float) : Type 0 where
    pub tracked : w.fresh ≡ none → IsTracked m → IsTracked s.model
    pub placed : IsPlaced m → IsPlaced s.model
    pub guarded : IsGuarded f c w m s

  pub Sends-Keeps :
      (w : Answers f.Float) (m : Model f.Float) (s : Sent f.Float) → Sends f c w m s → Keeps w m s
  Sends-Keeps w m s h = go h.stored
    where
      go :
          (s.model ≡ m) ⊎ ((key : Text) × (v : f.Float) × (s.model ≡ acknowledge f c key v m))
          → Keeps w m s
      go (inl e) = record { tracked = λ n t. rw e t; placed = λ p. rw e p; guarded = h.guarded }
      go (inr (key, v, e)) = record {
        tracked = λ n t. rw e (acknowledge-IsTracked key v m t);
        placed = λ p. rw e (
            unfold acknowledge in
            record {
              page_range = p.page_range;
              row_range = p.row_range;
              field_range = p.field_range;
            });
        guarded = h.guarded;
      }

  -- A step that sends nothing and leaves the values alone.
  pub still-Keeps :
      (w : Answers f.Float) (m n : Model f.Float)
      → (IsTracked m → IsTracked n)
      → (IsPlaced m → IsPlaced n)
      → Keeps w m (still f c n)
  still-Keeps w m n t p = record { tracked = λ e. t; placed = p; guarded = λ key v e. cc }

  pub moved-lt : (forward : Bool) (i n : ℕ) → i < n → moved f c forward i (n - 1) < n
  unfolding moved
  moved-lt true i n h = ground arith
  moved-lt false i n h = ground arith

  pub move-Keeps :
      (forward : Bool) (focus : Focus) (w : Answers f.Float) (m : Model f.Float)
      → Keeps w m (still f c (move f c forward focus m))
  move-Keeps forward items w m =
      still-Keeps w m _ (λ t. t)
        (λ p. record {
          page_range = p.page_range;
          row_range = moved-lt forward m.row (rows f c m.page) p.row_range;
          field_range = p.field_range;
        })
  move-Keeps forward params w m =
      still-Keeps w m _ (λ t. t)
        (λ p. record {
          page_range = p.page_range;
          row_range = p.row_range;
          field_range = moved-lt forward m.param (fields f c m.page) p.field_range;
        })

  -- A model with other focus, step size or entry.
  pub alike-Keeps :
      (w : Answers f.Float) (m : Model f.Float) (focus : Focus) (coarse : Bool)
      (editing : Option (Text × Text))
      → Keeps w m (still f c (record m { focus = focus; coarse = coarse; editing = editing }))
  alike-Keeps w m focus coarse editing =
      still-Keeps w m _ (λ t. t)
        (λ p. record {
          page_range = p.page_range;
          row_range = p.row_range;
          field_range = p.field_range;
        })

  pub same-Keeps : (w : Answers f.Float) (m : Model f.Float) → Keeps w m (still f c m)
  same-Keeps w m = still-Keeps w m m (λ t. t) (λ p. p)
