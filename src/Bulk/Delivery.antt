-- ===== src/Bulk/Delivery.antt =====
-- From the server's state to the client's: the datagrams of one get-all, in whatever order.
use sc_adat_appliance.Base.{
  ℕ, ◌+◌, ◌-◌, ◌*◌, ◌<◌, ◌≡◌, ◌≢◌, refl, ap, ◌⊎◌, inl, inr, Bool, true, false, Option, none, some,
  List, [], ◌∷◌, arith, length, drop, slice, get_elem?, ◌==◌, All, All-take, All-drop, Bool-cases,
}
use sc_adat_appliance.Base.Bytes.{same, same_iff}
use sc_adat_appliance.Base.Dict.{get, put}
use sc_adat_appliance.Base.Int.{ℤ, pos}
use sc_adat_appliance.Base.Result.{ok}
use sc_adat_appliance.Base.Sealed.{bind_ok, bind-eq-ok}
use sc_adat_appliance.Base.Text.{Text, codes}
use sc_adat_appliance.Osc.{Arg, Floats, parse_packet}
use sc_adat_appliance.Osc.Strings.{NulFree}
use sc_adat_appliance.Bulk.Packets.{IsNulFree, chunk-parsed, complete-parsed, chunks_from-packed}
use sc_adat_appliance.Bulk.{
  Value, chunk, complete, part, sorted_items, total_chunks, bulk_state_entries, state_chunk_packets,
}
use sc_adat_appliance.Bulk.Client.{
  Client, fresh, Entries, is_there, as_message, receive, finish, attempt, go_on,
}
use sc_adat_appliance.Bulk.Pairs.{Distinct, keys, delivered}
use sc_adat_appliance.Bulk.Indexes.{get-put_same, get-put_other}
use sc_adat_appliance.Bulk.Parts.{total_chunks_enough, sorted_items-Distinct, sorted_items-All}
use sc_adat_appliance.Bulk.Repeats.{Comparable}
use sc_adat_appliance.Bulk.Held.{
  arrived, IsHolding, receive-chunk, receive-complete, chunk-IsHolding, complete-IsHolding,
}
use sc_adat_appliance.Bulk.Reassembly.{finish-all, finish-cases}

-- A datagram at the client: the i-th chunk of the server, its completion, or another one.
pub data Arrival : Type 0 where
  part_arrives : ℕ → Arrival
  completion_arrives : Arrival
  other_arrives : List ℕ → Arrival

abbrev pub Comes : Arrival → List Arrival → Type 0
Comes a [] = ⊥
Comes a (b ∷ bs) = (b ≡ a) ⊎ Comes a bs

-- A packet on a path that is not one of the bulk state's, as are those of the older listeners.
abbrev pub IsOther : Floats → List ℕ → Type 0
IsOther floats bytes =
    (path : Text) × (types : Text) × (values : List (Arg floats.F)) × (parse_packet floats bytes
      ≡ ok (path, types, values))
    × (path ≢ codes "/mixer/state-chunk")
    × (path ≢ codes "/mixer/state-complete")

-- A chunk that the server has sent, the completion, or a packet on another path.
abbrev pub IsSent : Floats → ℕ → Arrival → Type 0
IsSent floats n (part_arrives i) = i < n
IsSent floats n completion_arrives = Unit
IsSent floats n (other_arrives bytes) = IsOther floats bytes

abbrev or_empty : Option (List ℕ) → List ℕ
or_empty none = []
or_empty (some bytes) = bytes

-- The bytes of a datagram, where the server has made these packets.
abbrev pub datagram : List (List ℕ) × List ℕ × List ℕ → Arrival → List ℕ
datagram packets (part_arrives i) = or_empty (get_elem? packets.0 i)
datagram packets completion_arrives = packets.1
datagram packets (other_arrives bytes) = bytes

abbrev pub datagrams : List (List ℕ) × List ℕ × List ℕ → List Arrival → List (List ℕ)
datagrams packets [] = []
datagrams packets (a ∷ later) = datagram packets a ∷ datagrams packets later

not_same : (s t : Text) → s ≢ t → same s t ≡ false
not_same s t apart = elim (Bool-cases (same s t)) [
  | inl e ↦ absurd (apart ((same_iff s t).0 e))
  | inr e ↦ e
]

module _ (floats : Floats) (equal : floats.F → floats.F → Bool) (snapshot : Text)
    (state : List (Text × Value (floats.F))) (apart : Distinct (keys state))
    (fine : All (Comparable floats equal) state) (packets : List (List ℕ) × List ℕ × List ℕ)
    (made : state_chunk_packets floats bulk_state_entries snapshot state ≡ ok packets)
    (free : NulFree snapshot) (all_free : All (IsNulFree floats) state) where
  open floats use {F}

  abbrev items : List (Text × Value F)
  items = sorted_items state

  abbrev n : ℕ
  n = total_chunks bulk_state_entries (length items)

  distinct : Distinct (keys items)
  distinct = sorted_items-Distinct state apart

  comparable : All (Comparable floats equal) items
  comparable = sorted_items-All (Comparable floats equal) state fine

  items_free : All (IsNulFree floats) items
  items_free = sorted_items-All (IsNulFree floats) state all_free

  part_free : (i : ℕ) → All (IsNulFree floats) (part 8 items i)
  unfolding slice
  part_free i =
      All-take (IsNulFree floats) ((i + 1) * 8 - i * 8) (drop (i * 8) items)
        (All-drop (IsNulFree floats) (i * 8) items items_free)

  -- A chunk of the server is parsed as itself.
  datagram-chunk :
      (i : ℕ)
      → i < n
      → as_message (parse_packet floats (datagram packets (part_arrives i)))
        ≡ ok (arrived floats (chunk snapshot i n (part 8 items i)))
  unfolding state_chunk_packets
  datagram-chunk i below =
      let (chunks, first, later) = bind-eq-ok _ _ made in
      let (completion, second, rest) = bind-eq-ok _ _ later in
      let (legacy, third, done) = bind-eq-ok _ _ rest in
      let eq : (chunks, completion, legacy) ≡ packets = ground (arith, done) in
      let (bytes, there, packs) =
        chunks_from-packed floats snapshot items n n 0 i chunks first below in
      let start : 0 + i ≡ i = omega arith in
      rw (← eq, there)
        (chunk-parsed floats snapshot i n (part 8 items i) bytes free (part_free i)
          (rw start at packs))

  datagram-complete :
      as_message (parse_packet floats (datagram packets completion_arrives))
      ≡ ok (arrived floats (complete snapshot n (length items)))
  unfolding state_chunk_packets
  datagram-complete =
      let (chunks, first, later) = bind-eq-ok _ _ made in
      let (completion, second, rest) = bind-eq-ok _ _ later in
      let (legacy, third, done) = bind-eq-ok _ _ rest in
      let eq : (chunks, completion, legacy) ≡ packets = ground (arith, done) in
      rw (← eq) (complete-parsed floats snapshot n (length items) completion free second)

  -- Each chunk and the completion are there, or still to come.
  abbrev Awaits : Client F → List Arrival → Type 0
  Awaits m later =
      ((i : ℕ) → i < n → (is_there (get i m.chunks) ≡ true) ⊎ Comes (part_arrives i) later)
      × ((m.completion ≡ some (pos n, pos (length items))) ⊎ Comes completion_arrives later)

  -- A datagram after which the client still waits, or is done.
  received_one :
      (later : List Arrival) (m : Client F)
      → IsHolding floats snapshot items n m
      → (finish floats equal m ≡ none
          → attempt floats equal (datagrams packets later) m ≡ ok (delivered floats items))
      → go_on floats equal
          (finish floats equal m)
          (attempt floats equal (datagrams packets later) m)
        ≡ ok (delivered floats items)
  received_one later m h rest =
      elim (finish-cases floats equal snapshot items n distinct (total_chunks_enough (length items))
        m h) [ inl e ↦ rw e (rest e) | inr e ↦ rw e refl ]

  -- Nothing more comes: then all is there.
  all_came :
      (m : Client F)
      → IsHolding floats snapshot items n m
      → Awaits m []
      → finish floats equal m ≡ some (ok (delivered floats items))
  all_came m h awaits = elim awaits.1 [
    | inr e ↦ absurd e
    | inl e ↦
        finish-all floats equal snapshot items n distinct (total_chunks_enough (length items)) m h e
          (λ i lt. elim (awaits.0 i lt) [ inl there ↦ there | inr never ↦ absurd never ])
  ]

  -- The chunk that has come is no longer awaited.
  chunk-Awaits :
      (m : Client F) (j : ℕ) (p : ℤ × Entries F) (later : List Arrival)
      → Awaits m (part_arrives j ∷ later)
      → Awaits (record m { snapshot = some snapshot; chunks = put j p m.chunks }) later
  chunk-Awaits m j p later awaits = (
    λ i lt. elim (Bool-cases (i == j)) [
      | inl e ↦
          let same_index : i ≡ j = ground (arith, e) in
          inl (rw (same_index, get-put_same j p m.chunks) refl)
      | inr e ↦ elim (awaits.0 i lt) [
        | inl there ↦ inl (rw (get-put_other i j p m.chunks (ground (arith, e))) there)
        | inr (inl here) ↦
            let same_index : i ≡ j = ground (arith, here) in absurd (ground (arith, e, same_index))
        | inr (inr comes) ↦ inr comes
      ]
    ],
    elim awaits.1 [
      | inl e ↦ inl e
      | inr (inl never) ↦ absurd (ground (arith, never))
      | inr (inr comes) ↦ inr comes
    ],
  )

  attempt-held :
      (arrivals : List Arrival) (m : Client F)
      → IsHolding floats snapshot items n m
      → finish floats equal m ≡ none
      → All (IsSent floats n) arrivals
      → Awaits m arrivals
      → attempt floats equal (datagrams packets arrivals) m ≡ ok (delivered floats items)
  unfolding attempt receive
  attempt-held [] m h open_end sent awaits = cc (open_end, all_came m h awaits)
  attempt-held (part_arrives j ∷ later) m h open_end sent awaits =
      let m1 : Client F = record m {
        snapshot = some snapshot;
        chunks = put j (pos n, delivered floats (part 8 items j)) m.chunks;
      } in
      let h1 = chunk-IsHolding floats equal snapshot items n distinct comparable m j sent.0 h in
      bind_ok _ (datagram-chunk j sent.0) (
        bind_ok _ (receive-chunk floats equal snapshot items n distinct comparable m j sent.0 h) (
          received_one later m1 h1
            (λ e. attempt-held later m1 h1 e sent.1 (chunk-Awaits m j _ later awaits))))
  attempt-held (completion_arrives ∷ later) m h open_end sent awaits =
      let m1 : Client F = record m {
        snapshot = some snapshot;
        completion = some (pos n, pos (length items));
      } in
      let h1 = complete-IsHolding floats equal snapshot items n distinct comparable m h in
      bind_ok _ datagram-complete (
        bind_ok _ (receive-complete floats equal snapshot items n distinct comparable m h) (
          received_one later m1 h1 (λ e. attempt-held later m1 h1 e sent.1 (
            λ i lt. elim (awaits.0 i lt) [
              | inl there ↦ inl there
              | inr (inl never) ↦ absurd (ground (arith, never))
              | inr (inr comes) ↦ inr comes
            ],
            inl refl,
          ))))
  attempt-held (other_arrives bytes ∷ later) m h open_end sent awaits =
      let (path, types, values, parsed, no_chunk, no_completion) = sent.0 in
      bind_ok _ (ap as_message parsed) (
        bind_ok _ (rw (not_same path _ no_chunk, not_same path _ no_completion) refl) (
          received_one later m h (λ e. attempt-held later m h e sent.1 (
            λ i lt. elim (awaits.0 i lt) [
              | inl there ↦ inl there
              | inr (inl never) ↦ absurd (ground (arith, never))
              | inr (inr comes) ↦ inr comes
            ],
            elim awaits.1 [
              | inl e ↦ inl e
              | inr (inl never) ↦ absurd (ground (arith, never))
              | inr (inr comes) ↦ inr comes
            ],
          ))))

  -- In whatever order, however often and among whatever packets on other paths the datagrams of a
  -- get-all arrive, if each arrives in the time of an attempt, the client returns the server's
  -- state: its items by their keys, with each number rounded to the float32 that was sent. The
  -- server's packets could be made, the keys of the state are distinct, no number is a NaN, and no
  -- text has a NUL.
  pub attempt-delivered :
      (arrivals : List Arrival)
      → All (IsSent floats n) arrivals
      → ((i : ℕ) → i < n → Comes (part_arrives i) arrivals)
      → Comes completion_arrives arrivals
      → attempt floats equal (datagrams packets arrivals) fresh ≡ ok (delivered floats items)
  attempt-delivered arrivals sent chunks completion =
      attempt-held arrivals fresh
        (record { known = refl; completed = inl refl; once = tt; held = tt })
        (unfold finish in refl) sent (λ i lt. inr (chunks i lt), inr completion)
