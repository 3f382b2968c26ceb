-- ===== src/Console/Keys/Steps.antt =====
-- What every key keeps: the list of changed values, the guard of what is sent, and the cursor.
use sc_adat_appliance.Base.{
  ℕ, ◌+◌, ◌-◌, ◌%◌, ◌≤◌, ◌<◌, ◌≡◌, refl, inl, inr, Bool, true, false, not, ◌&&◌, ◌||◌, Option, none,
  some, List, ◌==◌, if_both, Bool-cases, arith,
}
use sc_adat_appliance.Base.Text.{Text}
use sc_adat_appliance.Console.{
  Floats, Definition, Focus, items, params, Model, Answers, Sent, Contract, same_entry, acknowledge,
  or_value, moved, prompts, parse_direct_entry,
}
use sc_adat_appliance.Console.Sends.{write-Sends, bool_toggle-Sends, adjust_parameter-Sends}
use sc_adat_appliance.Console.Keys.{
  Key, up, down, left, right, escape, enter, backspace, tab, char, still, go_to, next_page, rows,
  fields, selected_key, begin_defined, begin_edit, enter_value, handle_edit, validated_entry,
  refreshed, updated, move, aside, enter_in, invert, letter, handle_key, handle, is_page, step,
  started, press_all,
}
use sc_adat_appliance.Console.Keys.Keeps.{
  IsPlaced, Keeps, Sends-Keeps, still-Keeps, move-Keeps, alike-Keeps, same-Keeps,
}

module _ (f : Floats) (c : Contract f.Float) where
  fresh-IsPlaced :
      (m : Model f.Float) (state : List (Text × f.Float))
      → IsPlaced f c m
      → IsPlaced f c (record m { state = state })
  fresh-IsPlaced m state p = record {
    page_range = p.page_range;
    row_range = p.row_range;
    field_range = p.field_range;
  }

  refreshed-Keeps :
      (w : Answers f.Float) (m : Model f.Float)
      → Keeps f c w m (still f c (refreshed f c w.fresh m))
  refreshed-Keeps w m = record {
    tracked = λ e t. rw e t;
    placed = placed w.fresh;
    guarded = λ key v e. cc;
  }
    where
      placed :
          (o : Option (Bool × List (Text × f.Float)))
          → IsPlaced f c m
          → IsPlaced f c (refreshed f c o m)
      placed none p = p
      placed (some (fits, fresh)) p =
          if_both (IsPlaced f c) fits (record m { state = updated f c fresh m.state }) m
            (fresh-IsPlaced m (updated f c fresh m.state) p) p

  begin_edit-Keeps :
      (focus : Focus) (w : Answers f.Float) (m : Model f.Float)
      → Keeps f c w m (still f c (enter_in f c focus m))
  unfolding begin_edit
  begin_edit-Keeps items w m = same-Keeps f c w m
  begin_edit-Keeps params w m = go (c.definition_of (selected_key f c m))
    where
      go :
          (o : Option (Definition f.Float))
          → Keeps f c w m (still f c (begin_defined f c (selected_key f c m) o m))
      go none = same-Keeps f c w m
      go (some d) =
          if_both (λ n. Keeps f c w m (still f c n)) (d.boolean || d.enumerated) m _
            (same-Keeps f c w m) (alike-Keeps f c w m m.focus m.coarse _)

  aside-Keeps :
      (forward : Bool) (focus : Focus) (w : Answers f.Float) (m : Model f.Float)
      → Keeps f c w m (aside f c forward focus w m)
  aside-Keeps forward items w m = alike-Keeps f c w m params m.coarse m.editing
  aside-Keeps forward params w m =
      Sends-Keeps f c w m _
        (adjust_parameter-Sends f c (selected_key f c m) forward (some w.confirmed) w m (inr refl))

  toggle-Keeps :
      (key : Text) (w : Answers f.Float) (m : Model f.Float)
      → Keeps f c w m (sc_adat_appliance.Console.bool_toggle f c key w m)
  toggle-Keeps key w m = Sends-Keeps f c w m _ (bool_toggle-Sends f c key w m)

  letter-Keeps :
      (n : ℕ) (w : Answers f.Float) (m : Model f.Float) → Keeps f c w m (letter f c n w m)
  letter-Keeps n w m =
      if_both (Keeps f c w m) (n == b'c') _ _ (alike-Keeps f c w m m.focus (not m.coarse) m.editing)
        (if_both (Keeps f c w m) (n == b'r') _ _ (refreshed-Keeps w m) (
          if_both (Keeps f c w m) (n == b'm' && m.page == 1) _ _
            (toggle-Keeps (c.mute_key m.row) w m)
            (if_both (Keeps f c w m) (n == b'h' && m.page == 1) _ _
              (toggle-Keeps (c.hpf_key m.row) w m)
              (if_both (Keeps f c w m) (n == b'p' && m.page == 1) _ _
                (Sends-Keeps f c w m (invert f c w m)
                  (write-Sends f c (c.polarity_key m.row) _ (some w.confirmed) w m (inr refl)))
                (if_both (Keeps f c w m) (n == b'b' && m.page == 2) _ _
                  (toggle-Keeps (c.bypass_key m.row) w m) (same-Keeps f c w m))))))

  handle_key-Keeps :
      (key : Key) (w : Answers f.Float) (m : Model f.Float) → Keeps f c w m (handle_key f c key w m)
  unfolding handle_key
  handle_key-Keeps escape w m = alike-Keeps f c w m items m.coarse m.editing
  handle_key-Keeps up w m = move-Keeps f c false m.focus w m
  handle_key-Keeps down w m = move-Keeps f c true m.focus w m
  handle_key-Keeps left w m = aside-Keeps false m.focus w m
  handle_key-Keeps right w m = aside-Keeps true m.focus w m
  handle_key-Keeps enter w m = begin_edit-Keeps m.focus w m
  handle_key-Keeps (char n) w m = letter-Keeps n w m
  handle_key-Keeps backspace w m = same-Keeps f c w m
  handle_key-Keeps tab w m = same-Keeps f c w m

  edit_done-Keeps :
      (w : Answers f.Float) (m : Model f.Float) (s : Sent f.Float)
      → Keeps f c w m s
      → Keeps f c w m (record s { model = record s.model { editing = none } })
  edit_done-Keeps w m s h = record {
    tracked = h.tracked;
    placed = λ p.
        let q = h.placed p in
        record { page_range = q.page_range; row_range = q.row_range; field_range = q.field_range };
    guarded = h.guarded;
  }

  enter_value-Keeps :
      (key : Text) (entry valid : Option f.Float) (w : Answers f.Float) (m : Model f.Float)
      → Keeps f c w m (enter_value f c key entry valid w.confirmed w m)
  enter_value-Keeps key none valid w m = same-Keeps f c w m
  enter_value-Keeps key (some v) none w m = same-Keeps f c w m
  enter_value-Keeps key (some v) (some valid) w m =
      edit_done-Keeps w m _
        (Sends-Keeps f c w m _ (write-Sends f c key v (some w.confirmed) w m (inr refl)))

  handle_edit-Keeps :
      (edited text : Text) (key : Key) (w : Answers f.Float) (m : Model f.Float)
      → Keeps f c w m (handle_edit f c edited text key w m)
  unfolding handle_edit
  handle_edit-Keeps edited text escape w m = alike-Keeps f c w m m.focus m.coarse none
  handle_edit-Keeps edited text backspace w m = alike-Keeps f c w m m.focus m.coarse _
  handle_edit-Keeps edited text enter w m =
      enter_value-Keeps edited (parse_direct_entry f c text edited)
        (validated_entry f c edited (parse_direct_entry f c text edited)) w m
  handle_edit-Keeps edited text (char n) w m =
      if_both (λ x. Keeps f c w m (still f c x)) (sc_adat_appliance.Console.Keys.is_numeric f c n) _
        m (alike-Keeps f c w m m.focus m.coarse _) (same-Keeps f c w m)
  handle_edit-Keeps edited text up w m = same-Keeps f c w m
  handle_edit-Keeps edited text down w m = same-Keeps f c w m
  handle_edit-Keeps edited text left w m = same-Keeps f c w m
  handle_edit-Keeps edited text right w m = same-Keeps f c w m
  handle_edit-Keeps edited text tab w m = same-Keeps f c w m

  handle-Keeps :
      (editing : Option (Text × Text)) (key : Key) (w : Answers f.Float) (m : Model f.Float)
      → Keeps f c w m (handle f c editing key w m)
  handle-Keeps none key w m = handle_key-Keeps key w m
  handle-Keeps (some (edited, text)) key w m = handle_edit-Keeps edited text key w m

  go_to-Keeps :
      (page : ℕ) (w : Answers f.Float) (m : Model f.Float)
      → 0 < c.channel_fields
      → 0 < c.group_fields
      → 1 ≤ page
      → page ≤ 3
      → Keeps f c w m (still f c (go_to f c page m))
  unfolding go_to rows fields
  go_to-Keeps page w m hc hg lo hi =
      still-Keeps f c w m _ (λ t. t)
        (λ p. record {
          page_range = (lo, hi);
          row_range = ground arith;
          field_range = ground arith;
        })

  is_page-range : (n : ℕ) → is_page f c n ≡ true → (1 ≤ n - b'0') × (n - b'0' ≤ 3)
  is_page-range n h = ground arith

  char-Keeps :
      (n : ℕ) (w : Answers f.Float) (m : Model f.Float)
      → 0 < c.channel_fields
      → 0 < c.group_fields
      → Keeps f c w m (step f c (char n) w m)
  unfolding step
  char-Keeps n w m hc hg =
      if_both (Keeps f c w m) (n == b'q' || n == b'Q' || n == b'?') _ _ (same-Keeps f c w m)
        (elim (Bool-cases (is_page f c n)) [
          | inl page ↦
              let range = is_page-range n page in
              rw page (go_to-Keeps (n - b'0') w m hc hg range.0 range.1)
          | inr other ↦ rw other (handle-Keeps m.editing (char n) w m)
        ])

  pub step-Keeps :
      (key : Key) (w : Answers f.Float) (m : Model f.Float)
      → 0 < c.channel_fields
      → 0 < c.group_fields
      → Keeps f c w m (step f c key w m)
  unfolding step next_page
  step-Keeps tab w m hc hg = go_to-Keeps (m.page % 3 + 1) w m hc hg (omega arith) (omega arith)
  step-Keeps (char n) w m hc hg = char-Keeps n w m hc hg
  step-Keeps up w m hc hg = handle-Keeps m.editing up w m
  step-Keeps down w m hc hg = handle-Keeps m.editing down w m
  step-Keeps left w m hc hg = handle-Keeps m.editing left w m
  step-Keeps right w m hc hg = handle-Keeps m.editing right w m
  step-Keeps escape w m hc hg = handle-Keeps m.editing escape w m
  step-Keeps enter w m hc hg = handle-Keeps m.editing enter w m
  step-Keeps backspace w m hc hg = handle-Keeps m.editing backspace w m
