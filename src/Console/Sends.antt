-- ===== src/Console/Sends.antt =====
-- What a control change of the console sends and what it leaves behind.
use sc_adat_appliance.Base.{
  ◌≡◌, ◌⊎◌, refl, inl, inr, Bool, true, false, Option, none, some, List, [], ◌∷◌, if_both,
  Bool-cases, arith,
}
use sc_adat_appliance.Base.Text.{Text}
use sc_adat_appliance.Console.{
  Floats, Definition, Model, Answers, Sent, Contract, validate, validated, dbamp, prompts,
  acknowledge, acknowledged, allowed, write, write_valid, write_some, bool_toggle, gain_adjust,
  signed, adjust_by, adjust_steps, adjust_defined, adjust_parameter,
}

module _ (f : Floats) (c : Contract f.Float) where
  -- A value that was sent has passed `validate_parameter`, and where a prompt belongs to it the
  -- operator has confirmed it.
  abbrev pub IsGuarded : Answers f.Float → Model f.Float → Sent f.Float → Type 0
  IsGuarded w m s =
      (key : Text) (v : f.Float)
      → s.sent ≡ some (key, v)
      → ((u : f.Float) × (c.validate_parameter key u ≡ some v))
        × (prompts f c key v m ≡ true → w.confirmed ≡ true)

  pub record Sends (w : Answers f.Float) (m : Model f.Float) (s : Sent f.Float) : Type 0 where
    pub stored :
        (s.model ≡ m) ⊎ ((key : Text) × (v : f.Float) × (s.model ≡ acknowledge f c key v m))
    pub guarded : IsGuarded w m s

  nothing_sent :
      (w : Answers f.Float) (m : Model f.Float) (failed : Bool)
      → Sends w m (record { model = m; sent = none; failed = failed })
  nothing_sent w m failed = record { stored = inl refl; guarded = λ key v e. cc }

  -- No function, or one that asks the operator.
  abbrev pub Asks : Answers f.Float → Option Bool → Type 0
  Asks w confirm = (confirm ≡ none) ⊎ (confirm ≡ some w.confirmed)

  validate-valid :
      (key : Text) (v out : f.Float)
      → validate f c key v ≡ some out
      → (u : f.Float) × (c.validate_parameter key u ≡ some out)
  unfolding validate
  validate-valid key v out h = elim (Bool-cases (c.is_pos_y key)) [
    | inl y ↦ absurd (cc (rw y at h))
    | inr other ↦ elim (Bool-cases (c.is_trim key)) [
      | inl trim ↦ go (dbamp f c v) (rw (other, trim) at h)
      | inr plain ↦ (v, rw (other, plain) at h)
    ]
  ]
    where
      go :
          (o : Option f.Float)
          → validated f c key o ≡ some out
          → (u : f.Float) × (c.validate_parameter key u ≡ some out)
      go none e = cc
      go (some u) e = (u, e)

  pub write-Sends :
      (key : Text) (v : f.Float) (confirm : Option Bool) (w : Answers f.Float) (m : Model f.Float)
      → Asks w confirm
      → Sends w m (write f c key v confirm w m)
  unfolding write
  write-Sends key v confirm w m asks = go (validate f c key v) refl
    where
      after :
          (out : f.Float) (o : Option f.Float)
          → (acknowledged f c key out o m ≡ m)
            ⊎ ((k : Text) × (u : f.Float) × (acknowledged f c key out o m ≡ acknowledge f c k u m))
      after out none = inl refl
      after out (some readback) = inr (key, readback, refl)

      confirmed : (o : Option Bool) → Asks w o → allowed f c o ≡ true → w.confirmed ≡ true
      confirmed none a h = cc
      confirmed (some b) (inl a) h = cc
      confirmed (some b) (inr a) h = ground (arith, a)

      go :
          (o : Option f.Float)
          → validate f c key v ≡ o
          → Sends w m (write_valid f c key o confirm w m)
      go none e = nothing_sent w m false
      go (some out) e = elim (Bool-cases (prompts f c key out m)) [
        | inr free ↦ rw free (record {
          stored = after out w.readback;
          guarded = λ k u same.
              let eq : (key ≡ k) × (out ≡ u) = ground (arith, same) in
              rw (← eq.0, ← eq.1) (validate-valid key v out e, λ p. cc (p, free));
        })
        | inl prompt ↦ elim (Bool-cases (allowed f c confirm)) [
          | inr refused ↦ rw (prompt, refused) (nothing_sent w m false)
          | inl granted ↦
              rw (prompt, granted)
                (record {
                  stored = after out w.readback;
                  guarded = λ k u same.
                      let eq : (key ≡ k) × (out ≡ u) = ground (arith, same) in
                      rw (← eq.0, ← eq.1)
                        (validate-valid key v out e, λ p. confirmed confirm asks granted);
                })
        ]
      ]

  write_some-Sends :
      (key : Text) (o : Option f.Float) (confirm : Option Bool) (w : Answers f.Float)
      (m : Model f.Float)
      → Asks w confirm
      → Sends w m (write_some f c key o confirm w m)
  write_some-Sends key none confirm w m asks = nothing_sent w m false
  write_some-Sends key (some v) confirm w m asks = write-Sends key v confirm w m asks

  pub bool_toggle-Sends :
      (key : Text) (w : Answers f.Float) (m : Model f.Float) → Sends w m (bool_toggle f c key w m)
  unfolding bool_toggle
  bool_toggle-Sends key w m = write-Sends key _ none w m (inl refl)

  gain_adjust-Sends :
      (key : Text) (delta : f.Float) (confirm : Option Bool) (w : Answers f.Float)
      (m : Model f.Float)
      → Asks w confirm
      → Sends w m (gain_adjust f c key delta confirm w m)
  unfolding gain_adjust
  gain_adjust-Sends key delta confirm w m asks = write_some-Sends key _ confirm w m asks

  adjust_by-Sends :
      (key : Text) (d : Definition f.Float) (forward : Bool) (step : Option f.Float)
      (confirm : Option Bool) (w : Answers f.Float) (m : Model f.Float)
      → Asks w confirm
      → Sends w m (adjust_by f c key d forward step confirm w m)
  adjust_by-Sends key d forward none confirm w m asks = nothing_sent w m true
  adjust_by-Sends key d forward (some step) confirm w m asks =
      if_both (Sends w m) d.decibels _ _
        (gain_adjust-Sends key (signed f c forward step) confirm w m asks)
        (write-Sends key _ confirm w m asks)

  adjust_steps-Sends :
      (key : Text) (d : Definition f.Float) (steps : List f.Float) (forward : Bool)
      (confirm : Option Bool) (w : Answers f.Float) (m : Model f.Float)
      → Asks w confirm
      → Sends w m (adjust_steps f c key d steps forward confirm w m)
  adjust_steps-Sends key d [] forward confirm w m asks =
      adjust_by-Sends key d forward _ confirm w m asks
  adjust_steps-Sends key d (s ∷ ss) forward confirm w m asks =
      write_some-Sends key _ confirm w m asks

  pub adjust_parameter-Sends :
      (key : Text) (forward : Bool) (confirm : Option Bool) (w : Answers f.Float)
      (m : Model f.Float)
      → Asks w confirm
      → Sends w m (adjust_parameter f c key forward confirm w m)
  unfolding adjust_parameter
  adjust_parameter-Sends key forward confirm w m asks = go (c.definition_of key)
    where
      go :
          (o : Option (Definition f.Float))
          → Sends w m (adjust_defined f c key o forward confirm w m)
      go none = nothing_sent w m false
      go (some d) =
          if_both (Sends w m) d.boolean _ _ (bool_toggle-Sends key w m)
            (adjust_steps-Sends key d d.steps forward confirm w m asks)
