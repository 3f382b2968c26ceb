-- ===== src/Bridge/Keys.antt =====
-- Held keys: at most one repeats, and none forever.
use sc_adat_appliance.Base.{
  ℕ, ◌+◌, ◌%◌, Bool, ◌&&◌, ◌<◌, ◌≡◌, inl, inr, refl, Option, none, some, List, [], ◌∷◌, arith, ltb,
  leb, ◌==◌, Bool-cases, All,
}
use sc_adat_appliance.Base.Dict.{get, pop, or_default, get_one, put_one, pop_one}
use sc_adat_appliance.Base.Text.{Text}
use sc_adat_appliance.Bridge.{
  Bridge, Out, Token, Led, Input, startup, on_status, on_leds, on_held, on_time, on_caps, on_key,
  on_mapped, on_token, on_tokens, on_packet, on_line, round, rounds, is_modifier, with_clock,
}
use sc_adat_appliance.Bridge.Keymap.{keymap}
use sc_adat_appliance.Bridge.Lines.{key_bytes, packet_bytes, is_key_status}

-- Nothing is held, or one key, which has a time to repeat at and a time that it went down.
pub data Holding (pressed : List (ℕ × Text)) (next started : List (ℕ × ℕ)) : Type 0 where
  nothing : pressed ≡ [] → next ≡ [] → started ≡ [] → Holding pressed next started
  one :
      (code : ℕ) (name : Text) (due since : ℕ)
      → pressed ≡ (code, name) ∷ []
      → next ≡ (code, due) ∷ []
      → started ≡ (code, since) ∷ []
      → Holding pressed next started

abbrev pub HoldsOne : Bridge → Type 0
HoldsOne s = Holding s.pressed s.repeat_next s.repeat_started

pop-Holding :
    (k : ℕ) (p : List (ℕ × Text)) (n u : List (ℕ × ℕ))
    → Holding p n u
    → Holding (pop k p) (pop k n) (pop k u)
unfolding pop
pop-Holding k p n u (nothing a b c) = rw (a, b, c) (nothing refl refl refl)
pop-Holding k p n u (one code name due since a b c) = elim (Bool-cases (code == k)) [
  | inl e ↦ rw (a, b, c, e) (nothing refl refl refl)
  | inr e ↦ rw (a, b, c, e) (one code name due since refl refl refl)
]

-- No held key has been down for five seconds.
abbrev pub Young : ℕ → List (ℕ × ℕ) → Type 0
Young now started = All (λ entry. now < entry.1 + 5000000000) started

abbrev Settled : ℕ → List Out × Bridge → Type 0
Settled now r = HoldsOne (r.1) × Young now ((r.1).repeat_started)

on_held-Settled :
    (now code : ℕ) (name : Text) (due since : ℕ) (s : Bridge)
    → s.pressed ≡ (code, name) ∷ []
    → s.repeat_next ≡ (code, due) ∷ []
    → s.repeat_started ≡ (code, since) ∷ []
    → Settled now (on_held now code name s)
unfolding on_held
on_held-Settled now code name due since s a b c =
    let started : get code s.repeat_started ≡ some since = rw c (get_one code since since) in
    elim (Bool-cases (leb (or_default now (get code s.repeat_started) + 5000000000) now)) [
      | inl old ↦ rw old (
        nothing (rw a (pop_one code name name)) (rw b (pop_one code due due))
            (rw c (pop_one code since since)),
        rw (c, pop_one code since since) tt,
      )
      | inr young ↦
          let bound : now < since + 5000000000 = ground (arith, young, started) in
          elim (Bool-cases (leb (or_default (now + 500000000) (get code s.repeat_next)) now)) [
            | inl due_now ↦
                rw (young, due_now)
                  (
                    one code name (now + 50000000) since a
                        (rw b (put_one code due (now + 50000000))) c,
                    rw c (bound, tt),
                  )
            | inr later ↦ rw (young, later) (one code name due since a b c, rw c (bound, tt))
          ]
    ]

on_time-Settled : (now : ℕ) (s : Bridge) → HoldsOne s → Settled now (on_time now s.pressed s)
on_time-Settled now s (nothing a b c) = go s.pressed a
  where
    go : (held : List (ℕ × Text)) → held ≡ [] → Settled now (on_time now held s)
    go held e = rw e (unfold on_time in (nothing a b c, rw c tt))
on_time-Settled now s (one code name due since a b c) = go s.pressed a
  where
    go : (held : List (ℕ × Text)) → held ≡ (code, name) ∷ [] → Settled now (on_time now held s)
    go held e = rw e (unfold on_time in (on_held-Settled now code name due since s a b c))

on_status-HoldsOne : (valid : Bool) (s : Bridge) → HoldsOne s → HoldsOne ((on_status valid s).1)
unfolding on_status
on_status-HoldsOne valid s h = elim (Bool-cases (s.led_pending && valid)) [
  | inl e ↦ rw e h
  | inr e ↦ rw e h
]

on_leds-HoldsOne :
    (events : List (Led × Bool)) (s : Bridge) → HoldsOne s → HoldsOne ((on_leds events s).1)
unfolding on_leds
on_leds-HoldsOne [] s h = h
on_leds-HoldsOne ((led, on) ∷ rest) s h = on_leds-HoldsOne rest (record s { led_mask = _ }) h

on_caps-HoldsOne :
    (name : Text) (now : ℕ) (s : Bridge) → HoldsOne s → HoldsOne ((on_caps name now s).1)
unfolding on_caps
on_caps-HoldsOne name now s h = elim (Bool-cases (leb (s.last_caps + 100000000) now)) [
  | inl e ↦ rw e h
  | inr e ↦ rw e h
]

on_key-HoldsOne :
    (t : Token) (code : ℕ) (name : Text) (s : Bridge)
    → HoldsOne s
    → HoldsOne ((on_key t code name s).1)
unfolding on_key
on_key-HoldsOne t code name s h = elim (Bool-cases (ltb t.raw 0x80)) [
  | inr up ↦ rw up (pop-Holding code s.pressed s.repeat_next s.repeat_started h)
  | inl down ↦ elim (Bool-cases (is_modifier code)) [
    | inl e ↦ rw (down, e) h
    | inr e ↦ rw (down, e) (one code name (t.first + 500000000) t.second refl refl refl)
  ]
]

on_mapped-HoldsOne :
    (t : Token) (code : ℕ) (name : Option Text) (s : Bridge)
    → HoldsOne s
    → HoldsOne ((on_mapped t code name s).1)
on_mapped-HoldsOne t code none s h = h
on_mapped-HoldsOne t code (some name) s h = elim (Bool-cases (code == 0x39)) [
  | inl e ↦ rw e (on_caps-HoldsOne name t.first s h)
  | inr e ↦ rw e (on_key-HoldsOne t code name s h)
]

on_tokens-HoldsOne : (ts : List Token) (s : Bridge) → HoldsOne s → HoldsOne ((on_tokens ts s).1)
unfolding on_tokens
on_tokens-HoldsOne [] s h = h
on_tokens-HoldsOne (t ∷ ts) s h =
    on_tokens-HoldsOne ts ((on_token t s).1)
      (unfold on_token in on_mapped-HoldsOne t (t.raw % 128) (get (t.raw % 128) keymap) s h)

on_line-HoldsOne :
    (bytes : Option (List ℕ)) (packet : Option (ℕ × ℕ)) (clock : ℕ → ℕ × ℕ) (s : Bridge)
    → HoldsOne s
    → HoldsOne ((on_line bytes packet clock s).1)
on_line-HoldsOne (some bytes) packet clock s h = on_tokens-HoldsOne (with_clock bytes 0 clock) s h
on_line-HoldsOne none (some (first, second)) clock s h = unfold on_packet in h
on_line-HoldsOne none none clock s h = h

-- Before the look at the held keys.
abbrev before : Input → Bridge → Bridge
before i s = (on_leds i.led_events ((on_status (is_key_status i.line) s).1)).1

before-HoldsOne : (i : Input) (s : Bridge) → HoldsOne s → HoldsOne (before i s)
before-HoldsOne i s h = on_leds-HoldsOne i.led_events _ (on_status-HoldsOne _ s h)

round-HoldsOne : (i : Input) (s : Bridge) → HoldsOne s → HoldsOne ((round i s).1)
unfolding round
round-HoldsOne i s h =
    on_line-HoldsOne (key_bytes i.line) (packet_bytes i.line) i.clock _
      ((on_time-Settled i.now (before i s) (before-HoldsOne i s h)).0)

rounds-HoldsOne : (is : List Input) (s : Bridge) → HoldsOne s → HoldsOne ((rounds is s).1)
unfolding rounds
rounds-HoldsOne [] s h = h
rounds-HoldsOne (i ∷ is) s h = rounds-HoldsOne is ((round i s).1) (round-HoldsOne i s h)

-- Whatever lines and LED events arrive from the start on, at most one key is held, and it has
-- one time to repeat at and one time since when it is down.
pub startup-HoldsOne : (mask : ℕ) (is : List Input) → HoldsOne ((rounds is ((startup mask).1)).1)
startup-HoldsOne mask is = rounds-HoldsOne is _ (unfold startup in nothing refl refl refl)

-- After a round without key bytes no held key has been down for five seconds at its time.
pub round-Young :
    (mask : ℕ) (is : List Input) (i : Input)
    → key_bytes i.line ≡ none
    → Young i.now (((round i ((rounds is ((startup mask).1)).1)).1).repeat_started)
unfolding round
round-Young mask is i no_keys =
    let s = (rounds is ((startup mask).1)).1 in
    let settled =
      on_time-Settled i.now (before i s) (before-HoldsOne i s (startup-HoldsOne mask is)) in
    rw no_keys (go (packet_bytes i.line) _ (settled.1))
  where
    go :
        (packet : Option (ℕ × ℕ)) (u : Bridge)
        → Young i.now u.repeat_started
        → Young i.now ((on_line none packet i.clock u).1.repeat_started)
    go none u h = h
    go (some (first, second)) u h = unfold on_packet in h

-- The keys that are held, and since when, stay as they are.
abbrev Same : Bridge → Bridge → Type 0
Same s s' = (s'.pressed ≡ s.pressed) × (s'.repeat_started ≡ s.repeat_started)
