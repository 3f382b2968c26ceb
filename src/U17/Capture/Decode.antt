-- ===== src/U17/Capture/Decode.antt =====
-- Decoding a session: the state machine sees the received bytes, across record boundaries, and
-- nothing of what was sent.
use sc_adat_appliance.Base.{
  ℕ, suc, ◌≡◌, refl, ap, ◌∙◌, sym, List, [], ◌∷◌, ◌++◌, arith, Bool-cases, inl, inr, length, ◌==◌,
}
use sc_adat_appliance.Base.Result.{ok}
use sc_adat_appliance.U17.Service.{Event, simulate_service_byte, simulate}
use sc_adat_appliance.U17.Capture.{
  Direction, rx, tx, other, Record, Stamped, stamp_all, decode_record, decode_records,
  decode_capture, record_session,
}
use sc_adat_appliance.U17.Capture.RoundTrip.{kept, read_capture-record_session}

-- The bytes received in a session, joined.
abbrev pub received_of : Direction → List ℕ → List ℕ
received_of rx payload = payload
received_of tx payload = []
received_of (other name) payload = []

abbrev pub received : List Record → List ℕ
received [] = []
received (r ∷ rs) = received_of r.direction r.payload ++ received rs

-- The events without their stamps.
abbrev pub events_of : List Stamped → List Event
events_of [] = []
events_of (s ∷ ss) = s.event ∷ events_of ss

events_of-append : (xs ys : List Stamped) → events_of (xs ++ ys) ≡ events_of xs ++ events_of ys
events_of-append [] ys = refl
events_of-append (x ∷ xs) ys = ap (λ (t : List Event). x.event ∷ t) (events_of-append xs ys)

events_of-stamp_all :
    (timestamp index : ℕ) (es : List Event) → events_of (stamp_all timestamp index es) ≡ es
events_of-stamp_all timestamp index [] = refl
events_of-stamp_all timestamp index (e ∷ es) =
    ap (λ (t : List Event). e ∷ t) (events_of-stamp_all timestamp (suc index) es)

-- Running the machine over two runs of bytes is running it over the first, then the second.
simulate-append :
    (xs ys : List ℕ) (state count : ℕ)
    → (simulate state count (xs ++ ys)).0
      ≡ (simulate state count xs).0
        ++ (simulate (simulate state count xs).1 (simulate state count xs).2 ys).0
unfolding simulate
simulate-append [] ys state count = refl
simulate-append (x ∷ xs) ys state count =
    let (event, after, next_count) = simulate_service_byte state x count in
    ap (λ (t : List Event). event ∷ t) (simulate-append xs ys after next_count)

module _ (state count timestamp : ℕ) (payload : List ℕ) where
  abbrev run : Direction → List Event × ℕ × ℕ
  run d = simulate state count (received_of d payload)

  decode_record-events :
      (d : Direction)
      → (events_of (decode_record state count d timestamp payload).0 ≡ (run d).0)
        × ((decode_record state count d timestamp payload).1 ≡ (run d).1)
        × ((decode_record state count d timestamp payload).2 ≡ (run d).2)
  unfolding decode_record simulate
  decode_record-events rx = (events_of-stamp_all timestamp 0 (run rx).0, refl, refl)
  decode_record-events tx = (refl, refl, refl)
  decode_record-events (other name) = (refl, refl, refl)

decode_records-events :
    (rs : List Record) (state count : ℕ)
    → events_of (decode_records state count rs) ≡ (simulate state count (received rs)).0
unfolding decode_records
decode_records-events [] state count = unfold simulate in refl
decode_records-events (r ∷ rs) state count =
    let one = decode_record-events state count r.timestamp r.payload r.direction in
    let first = decode_record state count r.direction r.timestamp r.payload in
    let ih = decode_records-events rs first.1 first.2 in
    events_of-append first.0 (decode_records first.1 first.2 rs)
    ∙ rw (ih, one.0, one.1, one.2)
        (sym (simulate-append (received_of r.direction r.payload) (received rs) state count))

-- A record without bytes adds nothing to what was received.
received_of-empty : (d : Direction) (payload : List ℕ) → payload ≡ [] → received_of d payload ≡ []
received_of-empty rx payload h = h
received_of-empty tx payload h = refl
received_of-empty (other name) payload h = refl

received-kept : (rs : List Record) → received (kept rs) ≡ received rs
received-kept [] = refl
received-kept (r ∷ rs) = elim (Bool-cases (length r.payload == 0)) [
  | inl empty ↦
      rw (empty, received_of-empty r.direction r.payload (ground arith)) (received-kept rs)
  | inr full ↦ rw (full, received-kept rs) refl
]

-- Decoding the file of a session succeeds, and its service events are those of the state machine
-- on all bytes received in the session, in order: what was sent does not count.
pub decode_capture-record_session :
    (rs : List Record) (file : List ℕ)
    → record_session rs ≡ ok file
    → (ss : List Stamped) × (decode_capture file ≡ ok ss)
      × (events_of ss ≡ (simulate 0 0 (received rs)).0)
unfolding decode_capture
decode_capture-record_session rs file h = (
  decode_records 0 0 (kept rs),
  rw (read_capture-record_session rs file h) refl,
  decode_records-events (kept rs) 0 0
      ∙ ap (λ (bytes : List ℕ). (simulate 0 0 bytes).0) (received-kept rs),
)
