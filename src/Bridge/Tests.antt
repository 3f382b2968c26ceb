-- ===== src/Bridge/Tests.antt =====
-- Rounds of the bridge with a key and with the trackball, and the theorems about them.
use sc_adat_appliance.Base.{◌≡◌, refl, true, false, none, some, [], ◌∷◌, arith}
use sc_adat_appliance.Base.Dict.{get}
use sc_adat_appliance.Base.Int.{pos, negsuc}
use sc_adat_appliance.Base.Text.{codes, is_space, strip_left}
use sc_adat_appliance.Bridge.{
  Bridge, mouse_syn, rel_x, rel_y, button_left, button_right, Input, startup, round, rounds,
  on_status, on_leds, on_time, on_key, on_token, on_tokens, on_packet, releases, with_clock,
  pointer_events, signed7, set_bit, clear_bit,
}
use sc_adat_appliance.Bridge.Lines.{
  literal, spaces, hex_digit, hex_byte, spaced_byte, byte_tokens, register_bytes, packet_bytes,
  skip_digits, count_colon, key_bytes, is_key_status,
}
use sc_adat_appliance.Bridge.Keys.{HoldsOne, startup-HoldsOne}
use sc_adat_appliance.Bridge.Pointer.{packed, watch, resting, IsReport, on_packet-packed}

-- The key A goes down one second after the start.
abbrev press : Input
press = record {
  line = codes "K2R0 1: 00";
  led_events = [];
  now = 1000000000;
  clock = λ k. (1000000001, 1000000002);
}

-- A mouse packet six seconds later.
abbrev late : Input
late = record {
  line = codes "D3R0 2: 81 7F";
  led_events = [];
  now = 7000000000;
  clock = λ k. (7000000001, 7000000002);
}

abbrev held : Bridge
held = record {
  led_mask = 1;
  led_pending = true;
  last_caps = 0;
  left = none;
  right = none;
  pressed = (0, codes "KEY_A") ∷ [];
  repeat_next = (0, 1500000001) ∷ [];
  repeat_started = (0, 1000000002) ∷ [];
}

pressing : (rounds (press ∷ []) ((startup 0).1)).1 ≡ held
unfolding rounds round startup on_status on_leds on_time on_tokens on_token on_key with_clock get
    key_bytes packet_bytes register_bytes literal spaces is_space strip_left count_colon skip_digits
    spaced_byte hex_byte hex_digit byte_tokens is_key_status set_bit clear_bit releases
pressing = refl

startup-HoldsOne_example : HoldsOne ((rounds (press ∷ late ∷ []) ((startup 2).1)).1)
startup-HoldsOne_example = startup-HoldsOne 2 (press ∷ late ∷ [])

on_packet-packed_example :
    (watch
        (on_packet (packed false (pos 1)) (packed true (negsuc 0)) held).0
        (resting held)
        (resting held)
      ≡ record { x = negsuc 0; y = pos 1; left = some false; right = some true })
    × IsReport held (on_packet (packed false (pos 1)) (packed true (negsuc 0)) held).0
    × ((on_packet (packed false (pos 1)) (packed true (negsuc 0)) held).1
        ≡ record held { left = some false; right = some true })
on_packet-packed_example =
    on_packet-packed (negsuc 0) (pos 1) false true held (omega arith) (omega arith)

-- `81 7F`: one step to the left and one down, with the right button pressed.
late_moves :
    (on_packet 0x81 0x7F held).0
    ≡ rel_x (negsuc 0) ∷ rel_y (pos 1) ∷ button_left false ∷ button_right true ∷ mouse_syn ∷ []
unfolding on_packet pointer_events signed7
late_moves = refl
