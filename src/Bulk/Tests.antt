-- ===== src/Bulk/Tests.antt =====
-- A state of nine entries, whose two chunks arrive out of order, and the theorem on it.
use sc_adat_appliance.Base.{
  ℕ, ◌<◌, ◌≡◌, ◌≢◌, refl, inl, inr, zero, suc, Bool, false, List, [], ◌∷◌, ◌++◌, arith, length, All,
  ◌==◌, take, drop, slice, replicate,
}
use sc_adat_appliance.Base.Bytes.{same, same_iff, from_big, to_big}
use sc_adat_appliance.Base.Result.{Result, ok, err}
use sc_adat_appliance.Base.Sealed.{◌>>=◌}
use sc_adat_appliance.Base.Text.{Text, codes, comes_before}
use sc_adat_appliance.Base.Utf8.{encode, encode_char, decode, decode_from, decode_char}
use sc_adat_appliance.Osc.{
  flt, str, OscError, packet, pack_values, pack_value, pack_int, osc_string, pad, osc_read,
  index_zero, word, parse_value, parse_values, parse_packet,
}
use sc_adat_appliance.Osc.Patterns.{patterns}
use sc_adat_appliance.Bulk.{
  Value, number, text, sorted_items, insert_item, total_chunks, pair_types, pair_values,
  chunks_from, state_chunk_packets,
}
use sc_adat_appliance.Bulk.Client.{fresh, attempt}
use sc_adat_appliance.Bulk.Packets.{IsNulFree, nul_free}
use sc_adat_appliance.Bulk.Pairs.{Distinct, keys, delivered}
use sc_adat_appliance.Bulk.Repeats.{Comparable}
use sc_adat_appliance.Bulk.Delivery.{
  Arrival, part_arrives, completion_arrives, other_arrives, Comes, IsOther, IsSent, datagrams,
  attempt-delivered,
}

abbrev state : List (Text × Value ℕ)
state =
    (codes "trim0", number 0x3F800000)
    ∷ (codes "mute0", number 0)
    ∷ (codes "master", number 0x3F000000)
    ∷ (codes "recorderState", text (codes "READY"))
    ∷ (codes "trim1", number 0x3F800000)
    ∷ (codes "mute1", number 0)
    ∷ (codes "trim2", number 0x3F800000)
    ∷ (codes "mute2", number 0x3F800000)
    ∷ (codes "source0Id", text (codes "kick"))
    ∷ []

equal : ℕ → ℕ → Bool
equal a b = a == b

-- `packet("/mixer/state", ",sf", "mute0", 0.0)`, an older record, which the client does not read.
abbrev older : List ℕ
older =
    codes "/mixer/state"
    ++ (0 ∷ 0 ∷ 0 ∷ 0 ∷ [])
    ++ codes ",sf"
    ++ (0 ∷ [])
    ++ codes "mute0"
    ++ (0 ∷ 0 ∷ 0 ∷ [])
    ++ (0 ∷ 0 ∷ 0 ∷ 0 ∷ [])

parse_packet-older :
    parse_packet patterns older
    ≡ ok (codes "/mixer/state", codes ",sf", str (codes "mute0") ∷ flt 0 ∷ [])
unfolding parse_packet osc_read index_zero parse_values parse_value word decode decode_from
    decode_char ◌>>=◌ take drop slice from_big
parse_packet-older = refl

apart_from : (s t : Text) → same s t ≡ false → s ≢ t
apart_from s t h e = cc (h, (same_iff s t).1 e)

older-IsOther : IsOther patterns older
unfolding same
older-IsOther = (
  codes "/mixer/state",
  codes ",sf",
  str (codes "mute0") ∷ flt 0 ∷ [],
  parse_packet-older,
  apart_from _ _ refl,
  apart_from _ _ refl,
)

abbrev or_none : Result OscError (List (List ℕ) × List ℕ × List ℕ) → List (List ℕ) × List ℕ × List ℕ
or_none (ok packets) = packets
or_none (err e) = ([], [], [])

-- The packets of the state, as the snapshot 7.
abbrev packets : List (List ℕ) × List ℕ × List ℕ
packets = or_none (state_chunk_packets patterns 8 (codes "7") state)

made : state_chunk_packets patterns 8 (codes "7") state ≡ ok packets
unfolding state_chunk_packets chunks_from sorted_items insert_item comes_before total_chunks
    pair_types pair_values packet pack_values pack_value pack_int osc_string pad encode encode_char
    ◌>>=◌ to_big drop take slice replicate
made = refl

abbrev arrivals : List Arrival
arrivals =
    completion_arrives ∷ part_arrives 1 ∷ other_arrives older ∷ part_arrives 1 ∷ part_arrives 0 ∷ []

two_chunks : total_chunks 8 (length (sorted_items state)) ≡ 2
unfolding sorted_items insert_item comes_before total_chunks
two_chunks = refl

apart : Distinct (keys state)
unfolding same
apart = (
  (refl, (refl, (refl, (refl, (refl, (refl, (refl, (refl, tt)))))))),
  (
    (refl, (refl, (refl, (refl, (refl, (refl, (refl, tt))))))),
    (
      (refl, (refl, (refl, (refl, (refl, (refl, tt)))))),
      (
        (refl, (refl, (refl, (refl, (refl, tt))))),
        (
          (refl, (refl, (refl, (refl, tt)))),
          ((refl, (refl, (refl, tt))), ((refl, (refl, tt)), ((refl, tt), (tt, tt)))),
        ),
      ),
    ),
  ),
)

fine : All (Comparable patterns equal) state
unfolding equal
fine = (refl, (refl, (refl, (tt, (refl, (refl, (refl, (refl, (tt, tt)))))))))

sent : All (IsSent patterns 2) arrivals
sent = (tt, (omega arith, (older-IsOther, (omega arith, (omega arith, tt)))))

came : (i : ℕ) → i < 2 → Comes (part_arrives i) arrivals
came zero h = inr (inr (inr (inr (inl refl))))
came (suc zero) h = inr (inl refl)
came (suc (suc i)) h = absurd (omega (arith, h))

all_free : All (IsNulFree patterns) state
all_free = (
  nul_free (codes "trim0") refl,
  (
    nul_free (codes "mute0") refl,
    (
      nul_free (codes "master") refl,
      (
        (nul_free (codes "recorderState") refl, nul_free (codes "READY") refl),
        (
          nul_free (codes "trim1") refl,
          (
            nul_free (codes "mute1") refl,
            (
              nul_free (codes "trim2") refl,
              (
                nul_free (codes "mute2") refl,
                ((nul_free (codes "source0Id") refl, nul_free (codes "kick") refl), tt),
              ),
            ),
          ),
        ),
      ),
    ),
  ),
)

attempt-delivered_example :
    attempt patterns equal (datagrams packets arrivals) fresh
    ≡ ok (delivered patterns (sorted_items state))
unfolding total_chunks sorted_items insert_item comes_before
attempt-delivered_example =
    attempt-delivered patterns equal (codes "7") state apart fine packets made
      (nul_free (codes "7") refl) all_free arrivals sent came (inl refl)
