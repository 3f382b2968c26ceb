-- ===== src/Listing/Calls/Walks.antt =====
-- The register values that are reported for a call are those of every walk to its address.
use mathlib.Core.List.{Memᴰ}
use mathlib.Core.List.Memᴰ
use sc_adat_appliance.Base.{
  ℕ, suc, ◌+◌, ◌≡◌, ◌⊎◌, refl, ap, sym, ◌∙◌, subst, inl, inr, Option, none, some, List, [], ◌∷◌,
  ◌==◌, Bool-cases, length, get_elem?, arith,
}
use sc_adat_appliance.Base.Dict.{get, put}
use sc_adat_appliance.Listing.{Row, Names}
use sc_adat_appliance.Listing.Control.{roots}
use sc_adat_appliance.Listing.Flow.{Cell, Outcome, finished, index_error, unset, out_of_fuel}
use sc_adat_appliance.Listing.Flow.Sound.{Walk, dataflow-Covers}
use sc_adat_appliance.Listing.Pointer.{Value, known, merge_state}
use sc_adat_appliance.Listing.Pointer.Walks.{below_known}
use sc_adat_appliance.Listing.Registers.{
  Register, Registers, unknown_registers, merge_registers, register_flow, register_dataflow,
}
use sc_adat_appliance.Listing.Registers.Laws.{register_flow-IsFlow}
use sc_adat_appliance.Listing.Calls.{
  Call, Resolved, put_row, by_address, resolve, at_state, with_state, at_index, located,
  resolve_calls, resolved_register_abi,
}

-- The entry of an address is a row at this address, among the rows from `n` on.
abbrev Found : ℕ → List Row → ℕ → ℕ → Type 0
Found n rows address i =
    (k : ℕ) × (row : Row) × (i ≡ n + k)
    × (get_elem? rows k ≡ some row)
    × (row.address ≡ some address)

get-put :
    (address k : ℕ) (i j : ℕ) (m : List (ℕ × ℕ))
    → get address (put k i m) ≡ some j
    → ((address ≡ k) × (i ≡ j)) ⊎ (get address m ≡ some j)
unfolding get put
get-put address k i j [] h = ground arith
get-put address k i j ((l, v) ∷ m) h = elim (Bool-cases (l == k)) [
  | inl same ↦ elim (Bool-cases (k == address)) [
    | inl here ↦ inl (ground arith)
    | inr other ↦ inr (ground arith)
  ]
  | inr apart ↦ elim (Bool-cases (l == address)) [
    | inl here ↦ inr (ground arith)
    | inr other ↦
        let rest : get address (put k i m) ≡ some j = ground arith in
        elim (get-put address k i j m rest) [
          | inl new ↦ inl new
          | inr old ↦ inr (rw (other, get) old)
        ]
  ]
]

by_address-Found :
    (n : ℕ) (rows : List Row) (found : List (ℕ × ℕ)) (address i : ℕ)
    → get address (by_address n rows found) ≡ some i
    → Found n rows address i ⊎ (get address found ≡ some i)
unfolding by_address get_elem?
by_address-Found n [] found address i h = inr h
by_address-Found n (row ∷ rows) found address i h =
    elim (by_address-Found (suc n) rows (put_row row.address n found) address i h) [
      | inl (k, r, e, at_k, at_address) ↦ inl (suc k, r, omega arith, at_k, at_address)
      | inr now ↦ first row.address refl now
    ]
  where
    first :
        (o : Option ℕ)
        → row.address ≡ o
        → get address (put_row o n found) ≡ some i
        → Found n (row ∷ rows) address i ⊎ (get address found ≡ some i)
    first none e k = inr k
    first (some a) e k = elim (get-put address a n i found k) [
      | inr old ↦ inr old
      | inl (same, at_n) ↦ inl (0, row, omega arith, refl, e ∙ ap (λ (x : ℕ). some x) (sym same))
    ]

-- What stands behind an entry of the result.
record Reported (states : List (Cell Registers)) (index : List (ℕ × ℕ)) (r : Resolved)
    : Type 0 where
  address : ℕ
  placed : r.call.row.address ≡ some address
  indexed : get address index ≡ some r.index
  held : get_elem? states r.index ≡ some (some r.values)

module _ (rows : List Row) (dptr_states : List (Cell Value)) (states : List (Cell Registers))
    (index : List (ℕ × ℕ)) where
  -- The property that all entries have.
  abbrev Sound : List Resolved → Type 0
  Sound out = (r : Resolved) → Memᴰ r out → Reported states index r

  with_state-Sound :
      (call : Call) (address i : ℕ) (values : Registers) (o : Option (Cell Value))
      (later out : List Resolved)
      → call.row.address ≡ some address
      → get address index ≡ some i
      → get_elem? states i ≡ some (some values)
      → Sound later
      → with_state rows call i values o later ≡ some out
      → Sound out
  unfolding resolve
  with_state-Sound call address i values none later out p g h s k = cc
  with_state-Sound call address i values (some state) later out p g h s k = λ r m.
      let next = resolve rows call i values state in
      let same : next ∷ later ≡ out = cc in
      elim (Memᴰ.cases_cons (subst (Memᴰ r) (sym same) m)) [
        | inr old ↦ s r old
        | inl new ↦ rw new (record { address = address; placed = p; indexed = g; held = h })
      ]

  at_state-Sound :
      (call : Call) (address i : ℕ) (c : Option (Cell Registers)) (later out : List Resolved)
      → call.row.address ≡ some address
      → get address index ≡ some i
      → get_elem? states i ≡ c
      → Sound later
      → at_state rows dptr_states call i c later ≡ some out
      → Sound out
  at_state-Sound call address i none later out p g h s k =
      let same : later ≡ out = cc in subst Sound same s
  at_state-Sound call address i (some none) later out p g h s k =
      let same : later ≡ out = cc in subst Sound same s
  at_state-Sound call address i (some (some values)) later out p g h s k =
      with_state-Sound call address i values (get_elem? dptr_states i) later out p g h s k

  at_index-Sound :
      (call : Call) (address : ℕ) (o : Option ℕ) (later out : List Resolved)
      → call.row.address ≡ some address
      → get address index ≡ o
      → Sound later
      → at_index rows dptr_states states call o later ≡ some out
      → Sound out
  at_index-Sound call address none later out p g s k =
      let same : later ≡ out = cc in subst Sound same s
  at_index-Sound call address (some i) later out p g s k =
      at_state-Sound call address i (get_elem? states i) later out p g refl s k

  resolve_calls-Sound :
      (calls : List Call) (out : List Resolved)
      → resolve_calls rows dptr_states states index calls ≡ some out
      → Sound out
  unfolding resolve_calls
  resolve_calls-Sound [] out h =
      let none_left : [] ≡ out = cc in
      λ r m. absurd (Memᴰ.not-nil (subst (Memᴰ r) (sym none_left) m))
  resolve_calls-Sound (call ∷ calls) out h =
      go call.row.address (resolve_calls rows dptr_states states index calls) refl
        (resolve_calls-Sound calls) h
    where
      go :
          (o : Option ℕ) (later : Option (List Resolved))
          → call.row.address ≡ o
          → ((rest : List Resolved) → later ≡ some rest → Sound rest)
          → located rows dptr_states states index call o later ≡ some out
          → Sound out
      go none later p ih k = cc
      go (some address) none p ih k = cc
      go (some address) (some rest) p ih k =
          at_index-Sound call address (get address index) rest out p refl (ih rest refl) k

-- The walks of the registers through the rows that the analysis follows, from a root where all are
-- unknown.
abbrev pub RegisterWalk : List Row → Names → ℕ → ℕ → Registers → Type 0
RegisterWalk rows labels root i s = Walk (register_flow rows labels) root unknown_registers i s

-- Each entry stands at a row with the address of its call, and a register value that it reports is
-- the one with which every walk from a root comes to this row.
pub resolved_register_abi-Walks :
    (rows : List Row) (labels : Names) (calls : List Call) (dptr_states : List (Cell Value))
    (out : List Resolved) (r : Resolved)
    → resolved_register_abi rows labels calls dptr_states ≡ some out
    → Memᴰ r out
    → (row : Row) × (get_elem? rows r.index ≡ some row)
      × (row.address ≡ r.call.row.address)
      × ((root : ℕ) (s : Registers) (q : Register) (n : ℕ)
          → Memᴰ root (roots rows labels)
          → RegisterWalk rows labels root r.index s
          → r.values q ≡ known n
          → s q ≡ known n)
unfolding resolved_register_abi register_dataflow
resolved_register_abi-Walks rows labels calls dptr_states out r h m =
    go (register_dataflow rows labels) refl h
  where
    go :
        (o : Outcome Registers)
        → register_dataflow rows labels ≡ o
        → elim o [
          | finished states ↦ resolve_calls rows dptr_states states (by_address 0 rows []) calls
          | _ ↦ none
        ]
          ≡ some out
        → (row : Row) × (get_elem? rows r.index ≡ some row)
          × (row.address ≡ r.call.row.address)
          × ((root : ℕ) (s : Registers) (q : Register) (n : ℕ)
              → Memᴰ root (roots rows labels)
              → RegisterWalk rows labels root r.index s
              → r.values q ≡ known n
              → s q ≡ known n)
    go index_error e k = cc
    go unset e k = cc
    go out_of_fuel e k = cc
    go (finished states) e k =
        let p =
          resolve_calls-Sound rows dptr_states states (by_address 0 rows []) calls out k r m in
        elim (by_address-Found 0 rows [] p.address r.index p.indexed) [
          | inr nowhere ↦ absurd (unfold get in cc)
          | inl (j, row, at_j, at_row, at_address) ↦
              let here : r.index ≡ j = omega arith in
              (
                row,
                rw here at_row,
                at_address ∙ sym p.placed,
                λ root s q n from walk shown.
                    let (t, at_i, le) =
                      dataflow-Covers (register_flow rows labels) (register_flow-IsFlow rows labels)
                        (length rows) (roots rows labels) states root r.index s e from walk in
                    let same : t ≡ r.values = cc (at_i, p.held) in
                    let below : merge_state (t q) (s q) ≡ t q =
                      unfold merge_registers in ap (λ (g : Registers). g q) le in
                    let value : t q ≡ known n = ap (λ (g : Registers). g q) same ∙ shown in
                    below_known (s q) n (rw value at below),
              )
        ]
