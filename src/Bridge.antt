-- ===== src/Bridge.antt =====
-- dyaxis/bridge/adb_mouse_bridge.py: from lines of the ADB probe to events of a virtual mouse and
-- a virtual keyboard. Times are nanoseconds of the monotonic clock.
pub mod Keymap
pub mod Lines
pub mod Keys
pub mod Pointer
mod Tests
use sc_adat_appliance.Base.{
  ℕ, ◌+◌, ◌-◌, ◌*◌, ◌/◌, ◌%◌, zero, suc, Bool, true, false, not, ◌&&◌, ◌||◌, Option, none, some,
  List, [], ◌∷◌, ◌++◌, length, ltb, leb, ◌==◌, if◌then◌else◌,
}
use sc_adat_appliance.Base.Dict.{get, put, pop, or_default}
use sc_adat_appliance.Base.Int.{ℤ, pos, negsuc}
use sc_adat_appliance.Base.Text.{Text, codes}
use sc_adat_appliance.Bridge.Keymap.{keymap}
use sc_adat_appliance.Bridge.Lines.{packet_bytes, key_bytes, is_key_status}

-- What is written to the two devices and to the serial port. A key event has value 0 for up, 1
-- for down and 2 for a repeat.
pub data Out : Type 0 where
  key : Text → ℕ → Out
  keyboard_syn mouse_syn : Out
  rel_x rel_y : ℤ → Out
  button_left button_right : Bool → Out
  leds : ℕ → Out

-- The local variables of `main` that the loop keeps.
pub record Bridge : Type 0 where
  pub led_mask : ℕ
  pub led_pending : Bool
  pub last_caps : ℕ
  pub left : Option Bool
  pub right : Option Bool
  pub pressed : List (ℕ × Text)
  pub repeat_next : List (ℕ × ℕ)
  pub repeat_started : List (ℕ × ℕ)

-- `mask | bit` and `mask & ~bit` for a bit that is a power of two.
abbrev pub has_bit : ℕ → ℕ → Bool
has_bit bit mask = mask / bit % 2 == 1

unfoldable pub set_bit : ℕ → ℕ → ℕ
set_bit bit mask = if has_bit bit mask then mask else mask + bit

unfoldable pub clear_bit : ℕ → ℕ → ℕ
clear_bit bit mask = if has_bit bit mask then mask - bit else mask

unfoldable pub flip_bit : ℕ → ℕ → ℕ
flip_bit bit mask = if has_bit bit mask then mask - bit else mask + bit

-- A momentary tap.
abbrev pub tap : Text → List Out
tap name = key name 1 ∷ keyboard_syn ∷ key name 0 ∷ keyboard_syn ∷ []

-- Before the loop: Caps Lock is taken off and Num Lock put on, from the mask of the LEDs that
-- Linux has.
unfoldable pub startup : ℕ → List Out × Bridge
startup mask =
    let locked = clear_bit 2 mask in
    let mask' = set_bit 1 locked in
    (
      (if has_bit 2 mask then tap (codes "KEY_CAPSLOCK") else [])
          ++ (if has_bit 1 mask then [] else tap (codes "KEY_NUMLOCK"))
          ++ leds mask' ∷ [],
      record {
        led_mask = mask';
        led_pending = true;
        last_caps = 0;
        left = none;
        right = none;
        pressed = [];
        repeat_next = [];
        repeat_started = [];
      },
    )

-- The first valid register-3 reply: the LEDs are written once more.
unfoldable pub on_status : Bool → Bridge → List Out × Bridge
on_status valid s =
    if s.led_pending && valid
    then (leds s.led_mask ∷ [], record s { led_pending = false })
    else ([], s)

-- The lock LEDs of Linux; an event of any other kind is none of them.
pub data Led : Type 0 where
  num caps scroll : Led

abbrev pub led_bit : Led → ℕ
led_bit num = 1
led_bit caps = 2
led_bit scroll = 4

unfoldable pub on_leds : List (Led × Bool) → Bridge → List Out × Bridge
on_leds [] s = ([], s)
on_leds ((led, on) ∷ rest) s =
    let mask =
      (if on then set_bit (led_bit led) s.led_mask else clear_bit (led_bit led) s.led_mask) in
    let (outs, s') = on_leds rest (record s { led_mask = mask }) in (leds mask ∷ outs, s')

-- The three `pop`s of a code.
abbrev pub forget : ℕ → Bridge → Bridge
forget code s = record s {
  pressed = pop code s.pressed;
  repeat_next = pop code s.repeat_next;
  repeat_started = pop code s.repeat_started;
}

-- One round of the loop over the pressed keys: a key that was down for five seconds is released,
-- and one that is due repeats.
unfoldable pub on_held : ℕ → ℕ → Text → Bridge → List Out × Bridge
on_held now code name s =
    if leb (or_default now (get code s.repeat_started) + 5000000000) now
    then (key name 0 ∷ keyboard_syn ∷ [], forget code s)
    else if leb (or_default (now + 500000000) (get code s.repeat_next)) now
    then (
      key name 2 ∷ keyboard_syn ∷ [],
      record s { repeat_next = put code (now + 50000000) s.repeat_next },
    )
    else ([], s)

-- The loop, over the keys that were pressed when it began.
unfoldable pub on_time : ℕ → List (ℕ × Text) → Bridge → List Out × Bridge
on_time now [] s = ([], s)
on_time now ((code, name) ∷ held) s =
    let (outs, s1) = on_held now code name s in
    let (more, s2) = on_time now held s1 in (outs ++ more, s2)

-- A key byte, and what the clock says when the code asks for it: once, or twice.
pub record Token : Type 0 where
  pub raw : ℕ
  pub first : ℕ
  pub second : ℕ

-- The keys that repeat.
abbrev pub is_modifier : ℕ → Bool
is_modifier code =
    code == 0x35
    || code == 0x36
    || code == 0x37
    || code == 0x38
    || code == 0x39
    || code == 0x3A
    || code == 0x7B
    || code == 0x7C
    || code == 0x7D
    || code == 0x7E

-- Caps Lock: a tap for either edge, at most once in a tenth of a second.
unfoldable pub on_caps : Text → ℕ → Bridge → List Out × Bridge
on_caps name now s =
    if leb (s.last_caps + 100000000) now
    then (
      tap name ++ leds (flip_bit 2 s.led_mask) ∷ [],
      record s { last_caps = now; led_mask = flip_bit 2 s.led_mask },
    )
    else ([], s)

-- The releases of the other keys when one is pressed.
unfoldable pub releases : ℕ → List (ℕ × Text) → List Out
releases code [] = []
releases code ((old, name) ∷ rest) =
    let later = releases code rest in if old == code then later else key name 0 ∷ later

unfoldable pub on_key : Token → ℕ → Text → Bridge → List Out × Bridge
on_key t code name s =
    if ltb t.raw 0x80
    then (if not (is_modifier code)
        then (
          key name 1 ∷ keyboard_syn ∷ (releases code s.pressed ++ keyboard_syn ∷ []),
          record s {
            pressed = (code, name) ∷ [];
            repeat_next = (code, t.first + 500000000) ∷ [];
            repeat_started = (code, t.second) ∷ [];
          },
        )
        else (key name 1 ∷ keyboard_syn ∷ [], s))
    else (key name 0 ∷ keyboard_syn ∷ [], forget code s)

abbrev pub on_mapped : Token → ℕ → Option Text → Bridge → List Out × Bridge
on_mapped t code none s = ([], s)
on_mapped t code (some name) s =
    if code == 0x39 then on_caps name t.first s else on_key t code name s

-- `raw & 0x7F` of a byte is the code, and `raw & 0x80` is set on release.
unfoldable pub on_token : Token → Bridge → List Out × Bridge
on_token t s = on_mapped t (t.raw % 128) (get (t.raw % 128) keymap) s

unfoldable pub on_tokens : List Token → Bridge → List Out × Bridge
on_tokens [] s = ([], s)
on_tokens (t ∷ ts) s =
    let (outs, s1) = on_token t s in let (more, s2) = on_tokens ts s1 in (outs ++ more, s2)

-- `signed7`
unfoldable pub signed7 : ℕ → ℤ
signed7 value = if ltb (value % 128) 64 then pos (value % 128) else negsuc (127 - value % 128)

abbrev pub is_zero : ℤ → Bool
is_zero (pos n) = n == 0
is_zero (negsuc n) = false

abbrev pub differs : Bool → Option Bool → Bool
differs b none = true
differs true (some c) = not c
differs false (some c) = c

-- The events of a motion and of two buttons: only what is not zero and what has changed.
unfoldable pub pointer_events : ℤ → ℤ → Bool → Bool → Bridge → List Out
pointer_events dx dy new_left new_right s =
    (if is_zero dx then [] else rel_x dx ∷ [])
    ++ (if is_zero dy then [] else rel_y dy ∷ [])
    ++ (if differs new_left s.left then button_left new_left ∷ [] else [])
    ++ (if differs new_right s.right then button_right new_right ∷ [] else [])

-- `if changed: mouse.syn()`
abbrev pub with_syn : List Out → List Out
with_syn [] = []
with_syn (o ∷ os) = (o ∷ os) ++ mouse_syn ∷ []

-- A mouse packet: byte 1 is Y and the left button, byte 2 is X and the right one; a set high bit
-- is a button that is up.
unfoldable pub on_packet : ℕ → ℕ → Bridge → List Out × Bridge
on_packet first second s = (
  with_syn (pointer_events (signed7 second) (signed7 first) (ltb first 0x80) (ltb second 0x80) s),
  record s { left = some (ltb first 0x80); right = some (ltb second 0x80) },
)

-- The bytes from a position on, with the clock's answers at each.
unfoldable pub with_clock : List ℕ → ℕ → (ℕ → ℕ × ℕ) → List Token
with_clock [] k clock = []
with_clock (b ∷ bs) k clock =
    record { raw = b; first = (clock k).0; second = (clock k).1 } ∷ with_clock bs (suc k) clock

-- What one round of the loop takes in.
pub record Input : Type 0 where
  pub line : Text
  pub led_events : List (Led × Bool)
  pub now : ℕ
  pub clock : ℕ → ℕ × ℕ

-- The end of a round, by what the line is.
abbrev pub on_line : Option (List ℕ) → Option (ℕ × ℕ) → (ℕ → ℕ × ℕ) → Bridge → List Out × Bridge
on_line (some bytes) packet clock s = on_tokens (with_clock bytes 0 clock) s
on_line none (some (first, second)) clock s = on_packet first second s
on_line none none clock s = ([], s)

-- One round of `while True`.
unfoldable pub round : Input → Bridge → List Out × Bridge
round i s =
    let (a, s1) = on_status (is_key_status i.line) s in
    let (b, s2) = on_leds i.led_events s1 in
    let (c, s3) = on_time i.now s2.pressed s2 in
    let (d, s4) = on_line (key_bytes i.line) (packet_bytes i.line) i.clock s3 in
    (a ++ b ++ c ++ d, s4)

unfoldable pub rounds : List Input → Bridge → List Out × Bridge
rounds [] s = ([], s)
rounds (i ∷ is) s =
    let (outs, s1) = round i s in let (more, s2) = rounds is s1 in (outs ++ more, s2)
