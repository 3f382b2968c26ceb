-- ===== src/Bridge/Pointer.antt =====
-- Mouse packets: the line of a packet reads back as its two bytes, and the bytes as motion.
use sc_adat_appliance.Base.{
  ℕ, ◌+◌, ◌-◌, ◌*◌, ◌/◌, ◌%◌, ◌<◌, ◌≡◌, ◌≢◌, ◌⊎◌, ◌∙◌, refl, inl, inr, Bool, true, false, Option,
  none, some, List, [], ◌∷◌, ◌++◌, append_assoc, arith, ltb, if◌then◌else◌, Bool-cases, All,
  All-append,
}
use sc_adat_appliance.Base.Int.{ℤ, pos, negsuc, ◌+ℤ◌}
use sc_adat_appliance.Base.Text.{Text, codes, is_space, strip_left}
use sc_adat_appliance.Bridge.{
  Bridge, Out, rel_x, rel_y, button_left, button_right, mouse_syn, signed7, on_packet, is_zero,
  differs, pointer_events, with_syn,
}
use sc_adat_appliance.Bridge.Lines.{
  literal, spaces, hex_digit, hex_byte, spaced_byte, two_bytes, register_bytes, packet_bytes,
}

-- Seven bits of two's complement under a button's bit.
abbrev pub IsStep : ℤ → Type 0
IsStep (pos n) = n < 64
IsStep (negsuc n) = n < 64

abbrev pub packed : Bool → ℤ → ℕ
packed down (pos n) = (if down then 0 else 128) + n
packed down (negsuc n) = (if down then 0 else 128) + (127 - n)

signed7-packed : (down : Bool) (d : ℤ) → IsStep d → signed7 (packed down d) ≡ d
unfolding signed7
signed7-packed true (pos n) h = ground arith
signed7-packed false (pos n) h = ground arith
signed7-packed true (negsuc n) h = ground arith
signed7-packed false (negsuc n) h = ground arith

packed_down : (down : Bool) (d : ℤ) → IsStep d → ltb (packed down d) 0x80 ≡ down
packed_down true (pos n) h = ground arith
packed_down false (pos n) h = ground arith
packed_down true (negsuc n) h = ground arith
packed_down false (negsuc n) h = ground arith

-- What a listener has learnt of the pointer: how far it has gone, and its buttons.
pub record Pointer : Type 0 where
  pub x : ℤ
  pub y : ℤ
  pub left : Option Bool
  pub right : Option Bool

-- A listener collects events, and takes them at a syn.
unfoldable pub watch : List Out → Pointer → Pointer → Pointer
watch [] pending taken = taken
watch (rel_x d ∷ os) pending taken = watch os (record pending { x = pending.x +ℤ d }) taken
watch (rel_y d ∷ os) pending taken = watch os (record pending { y = pending.y +ℤ d }) taken
watch (button_left b ∷ os) pending taken = watch os (record pending { left = some b }) taken
watch (button_right b ∷ os) pending taken = watch os (record pending { right = some b }) taken
watch (mouse_syn ∷ os) pending taken = watch os pending pending
watch (other ∷ os) pending taken = watch os pending taken

-- A pointer at rest, with the buttons that are known.
abbrev pub resting : Bridge → Pointer
resting s = record { x = pos 0; y = pos 0; left = s.left; right = s.right }

-- An event that says something new.
abbrev pub IsNews : Bridge → Out → Type 0
IsNews s (rel_x d) = d ≢ pos 0
IsNews s (rel_y d) = d ≢ pos 0
IsNews s (button_left b) = s.left ≢ some b
IsNews s (button_right b) = s.right ≢ some b
IsNews s other = ⊥

-- No event at all, or some news and one syn behind it.
abbrev pub IsReport : Bridge → List Out → Type 0
IsReport s os =
    (os ≡ [])
    ⊎ ((o : Out) × (news : List Out) × All (IsNews s) (o ∷ news)
        × (os ≡ (o ∷ news) ++ mouse_syn ∷ []))

zero-add : (d : ℤ) → pos 0 +ℤ d ≡ d
unfolding ◌+ℤ◌
zero-add (pos n) = ground arith
zero-add (negsuc n) = ground arith

is_zero_iff : (d : ℤ) → is_zero d ≡ true → d ≡ pos 0
is_zero_iff (pos n) h = ground (arith, h)
is_zero_iff (negsuc n) h = cc h

is_zero_not : (d : ℤ) → is_zero d ≡ false → d ≢ pos 0
is_zero_not d h e = cc (rw e at h)

same_button : (b : Bool) (o : Option Bool) → differs b o ≡ false → o ≡ some b
same_button b none h = cc h
same_button true (some true) h = refl
same_button true (some false) h = cc h
same_button false (some true) h = cc h
same_button false (some false) h = refl

new_button : (b : Bool) (o : Option Bool) → differs b o ≡ true → o ≢ some b
new_button true o h e = cc (rw e at h)
new_button false o h e = cc (rw e at h)

watch-x :
    (d : ℤ) (y : ℤ) (left right : Option Bool) (os : List Out) (taken : Pointer)
    → watch
        ((if is_zero d then [] else rel_x d ∷ []) ++ os)
        (record { x = pos 0; y = y; left = left; right = right })
        taken
      ≡ watch os (record { x = d; y = y; left = left; right = right }) taken
watch-x d y left right os taken = elim (Bool-cases (is_zero d)) [
  | inl e ↦ rw (e, is_zero_iff d e) refl
  | inr e ↦ rw e (unfold watch in rw (zero-add d) refl)
]

watch-y :
    (d x : ℤ) (left right : Option Bool) (os : List Out) (taken : Pointer)
    → watch
        ((if is_zero d then [] else rel_y d ∷ []) ++ os)
        (record { x = x; y = pos 0; left = left; right = right })
        taken
      ≡ watch os (record { x = x; y = d; left = left; right = right }) taken
watch-y d x left right os taken = elim (Bool-cases (is_zero d)) [
  | inl e ↦ rw (e, is_zero_iff d e) refl
  | inr e ↦ rw e (unfold watch in rw (zero-add d) refl)
]

watch-left :
    (b : Bool) (x y : ℤ) (old right : Option Bool) (os : List Out) (taken : Pointer)
    → watch
        ((if differs b old then button_left b ∷ [] else []) ++ os)
        (record { x = x; y = y; left = old; right = right })
        taken
      ≡ watch os (record { x = x; y = y; left = some b; right = right }) taken
watch-left b x y old right os taken = elim (Bool-cases (differs b old)) [
  | inl e ↦ rw e (unfold watch in refl)
  | inr e ↦ rw (e, same_button b old e) refl
]

watch-right :
    (b : Bool) (x y : ℤ) (left old : Option Bool) (os : List Out) (taken : Pointer)
    → watch
        ((if differs b old then button_right b ∷ [] else []) ++ os)
        (record { x = x; y = y; left = left; right = old })
        taken
      ≡ watch os (record { x = x; y = y; left = left; right = some b }) taken
watch-right b x y left old os taken = elim (Bool-cases (differs b old)) [
  | inl e ↦ rw e (unfold watch in refl)
  | inr e ↦ rw (e, same_button b old e) refl
]

-- The syn is left out only behind nothing.
watch-with_syn :
    (os : List Out) (p : Pointer) → watch (with_syn os) p p ≡ watch (os ++ mouse_syn ∷ []) p p
watch-with_syn [] p = unfold watch in refl
watch-with_syn (o ∷ os) p = refl

watch-pointer_events :
    (dx dy : ℤ) (left right : Bool) (s : Bridge)
    → watch (with_syn (pointer_events dx dy left right s)) (resting s) (resting s)
      ≡ record { x = dx; y = dy; left = some left; right = some right }
unfolding pointer_events
watch-pointer_events dx dy left right s =
    let xs = if is_zero dx then [] else rel_x dx ∷ [] in
    let ys = if is_zero dy then [] else rel_y dy ∷ [] in
    let ls = if differs left s.left then button_left left ∷ [] else [] in
    let rs = if differs right s.right then button_right right ∷ [] else [] in
    watch-with_syn (pointer_events dx dy left right s) (resting s)
    ∙ rw
        (
          append_assoc (xs ++ ys ++ ls) rs (mouse_syn ∷ []),
          append_assoc (xs ++ ys) ls (rs ++ mouse_syn ∷ []),
          append_assoc xs ys (ls ++ (rs ++ mouse_syn ∷ [])),
          watch-x dx (pos 0) s.left s.right (ys ++ (ls ++ (rs ++ mouse_syn ∷ []))) (resting s),
          watch-y dy dx s.left s.right (ls ++ (rs ++ mouse_syn ∷ [])) (resting s),
          watch-left left dx dy s.left s.right (rs ++ mouse_syn ∷ []) (resting s),
          watch-right right dx dy (some left) s.right (mouse_syn ∷ []) (resting s),
        )
        (unfold watch in refl)

pointer_events-IsNews :
    (dx dy : ℤ) (left right : Bool) (s : Bridge)
    → All (IsNews s) (pointer_events dx dy left right s)
unfolding pointer_events
pointer_events-IsNews dx dy left right s =
    All-append (IsNews s) _ _
      (All-append (IsNews s) _ _
        (All-append (IsNews s) _ _ (step_news (rel_x dx) dx (is_zero_not dx))
          (step_news (rel_y dy) dy (is_zero_not dy)))
        (button_news (button_left left) left s.left (new_button left s.left)))
      (button_news (button_right right) right s.right (new_button right s.right))
  where
    step_news :
        (o : Out) (d : ℤ)
        → (is_zero d ≡ false → IsNews s o)
        → All (IsNews s) (if is_zero d then [] else o ∷ [])
    step_news o d h = elim (Bool-cases (is_zero d)) [ inl e ↦ rw e tt | inr e ↦ rw e (h e, tt) ]

    button_news :
        (o : Out) (b : Bool) (old : Option Bool)
        → (differs b old ≡ true → IsNews s o)
        → All (IsNews s) (if differs b old then o ∷ [] else [])
    button_news o b old h = elim (Bool-cases (differs b old)) [
      | inl e ↦ rw e (h e, tt)
      | inr e ↦ rw e tt
    ]

with_syn-IsReport : (s : Bridge) (os : List Out) → All (IsNews s) os → IsReport s (with_syn os)
with_syn-IsReport s [] h = inl refl
with_syn-IsReport s (o ∷ os) h = inr (o, os, h, refl)

-- A packet that packs steps of -64..63 and two buttons is taken as just these: a listener that takes
-- the events at their syn learns of the two steps and of the buttons, which are then the known ones.
-- Each event but the one syn at the end says something new, and where nothing is new nothing is
-- written.
pub on_packet-packed :
    (dx dy : ℤ) (left right : Bool) (s : Bridge)
    → IsStep dx
    → IsStep dy
    → (watch (on_packet (packed left dy) (packed right dx) s).0 (resting s) (resting s)
        ≡ record { x = dx; y = dy; left = some left; right = some right })
      × IsReport s (on_packet (packed left dy) (packed right dx) s).0
      × ((on_packet (packed left dy) (packed right dx) s).1
          ≡ record s { left = some left; right = some right })
unfolding on_packet
on_packet-packed dx dy left right s hx hy =
    rw
      (
        signed7-packed right dx hx,
        signed7-packed left dy hy,
        packed_down left dy hy,
        packed_down right dx hx,
      )
      (
        watch-pointer_events dx dy left right s,
        with_syn-IsReport s _ (pointer_events-IsNews dx dy left right s),
        refl,
      )

-- The digit of a number below 16, in the probe's upper case.
abbrev pub upper_digit : ℕ → ℕ
upper_digit n = if ltb n 10 then n + b'0' else n - 10 + b'A'

abbrev pub printed : ℕ → Text
printed b = upper_digit (b / 16) ∷ upper_digit (b % 16) ∷ []

hex_digit-upper_digit : (n : ℕ) → n < 16 → hex_digit (upper_digit n) ≡ some n
unfolding hex_digit
hex_digit-upper_digit n h = ground arith

upper_digit_no_space : (n : ℕ) → n < 16 → is_space (upper_digit n) ≡ false
unfolding is_space
upper_digit_no_space n h = ground arith

spaces-printed :
    (b : ℕ) (rest : Text) → b < 256 → spaces (32 ∷ (printed b ++ rest)) ≡ some (printed b ++ rest)
unfolding spaces strip_left
spaces-printed b rest h = rw (upper_digit_no_space (b / 16) (omega arith)) (unfold is_space in refl)

hex_byte-printed : (b : ℕ) (rest : Text) → b < 256 → hex_byte (printed b ++ rest) ≡ some (b, rest)
unfolding hex_byte
hex_byte-printed b rest h =
    let whole : b / 16 * 16 + b % 16 ≡ b = omega arith in
    rw
      (
        hex_digit-upper_digit (b / 16) (omega arith),
        hex_digit-upper_digit (b % 16) (omega arith),
        whole,
      )
      refl

spaced_byte-printed :
    (b : ℕ) (rest : Text) → b < 256 → spaced_byte (32 ∷ (printed b ++ rest)) ≡ some (b, rest)
unfolding spaced_byte
spaced_byte-printed b rest h = rw (spaces-printed b rest h, hex_byte-printed b rest h) refl

-- The line of a mouse packet, as the probe prints it, is read as its two bytes.
pub packet_bytes-printed :
    (a b : ℕ) (rest : Text)
    → a < 256
    → b < 256
    → packet_bytes (codes "D3R0 2:" ++ (32 ∷ (printed a ++ (32 ∷ (printed b ++ rest)))))
      ≡ some (a, b)
unfolding packet_bytes register_bytes literal spaces strip_left is_space two_bytes
packet_bytes-printed a b rest ha hb =
    rw (spaced_byte-printed a (32 ∷ (printed b ++ rest)) ha, spaced_byte-printed b rest hb) refl
