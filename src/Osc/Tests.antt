-- ===== src/Osc/Tests.antt =====
-- The theorem about packets on a concrete packet.
use sc_adat_appliance.Base.{ℕ, ◌≡◌, refl, List, [], ◌∷◌, drop, replicate}
use sc_adat_appliance.Base.Bytes.{to_big}
use sc_adat_appliance.Base.Text.{codes}
use sc_adat_appliance.Base.Utf8.{encode, encode_char}
use sc_adat_appliance.Base.Int.{negsuc}
use sc_adat_appliance.Base.Result.{ok}
use sc_adat_appliance.Base.Sealed.{◌>>=◌}
use sc_adat_appliance.Osc.{
  Arg, int, flt, str, packet, parse_packet, pack_values, pack_value, pack_int, osc_string, pad,
}
use sc_adat_appliance.Osc.RoundTrip.{as_int, as_float, as_text, all_received, parse_packet-packet}
use sc_adat_appliance.Osc.Patterns.{patterns}

-- `packet("/mixer/x", ",ifs", -2, 1.0, "é")`
abbrev values : List (Arg ℕ)
values = int (negsuc 1) ∷ flt 0x3F800000 ∷ str (0xE9 ∷ []) ∷ []

abbrev bytes : List ℕ
bytes =
    b'/' ∷ b'm' ∷ b'i' ∷ b'x' ∷ b'e' ∷ b'r' ∷ 0 ∷ 0 ∷ b',' ∷ b'i' ∷ b'f' ∷ b's' ∷ 0 ∷ 0 ∷ 0 ∷ 0
    ∷ 0xFF ∷ 0xFF ∷ 0xFF ∷ 0xFE ∷ 0x3F ∷ 0x80 ∷ 0 ∷ 0 ∷ 0xC3 ∷ 0xA9 ∷ 0 ∷ 0 ∷ []

packet-bytes : packet patterns (codes "/mixer") (codes ",ifs") values ≡ ok bytes
unfolding packet pack_values pack_value pack_int osc_string pad encode encode_char ◌>>=◌ to_big drop
    replicate
packet-bytes = refl

parse_packet-packet_example :
    parse_packet patterns bytes ≡ ok (codes "/mixer", codes ",ifs", all_received patterns values)
parse_packet-packet_example =
    parse_packet-packet patterns (codes "/mixer") b',' (codes "ifs") values bytes
      (cc, (cc, (cc, (cc, (cc, (cc, tt)))))) (cc, (cc, (cc, (cc, tt))))
      (as_int (negsuc 1) refl, (as_float 0x3F800000 refl, (as_text (0xE9 ∷ []) refl (cc, tt), tt)))
      packet-bytes
