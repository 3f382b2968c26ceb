-- ===== src/Listing/Pointer/Walks.antt =====
-- The analysis returns, and an address that it resolves is the one on every walk to its row.
use mathlib.Core.List.{Memᴰ}
use mathlib.Core.List.Memᴰ
use sc_adat_appliance.Base.{
  ℕ, suc, ◌<◌, ◌≡◌, refl, inl, inr, Option, none, some, List, [], ◌∷◌, Bool-cases, length,
  get_elem?, arith,
}
use sc_adat_appliance.Listing.{Row, Names}
use sc_adat_appliance.Listing.Control.{lowered, roots}
use sc_adat_appliance.Listing.Control.Range.{Placed, Below-mem, successors-Below, roots-Below}
use sc_adat_appliance.Listing.Flow.{Cell, Outcome, finished, index_error, unset, out_of_fuel}
use sc_adat_appliance.Listing.Flow.Sound.{Walk, dataflow-Covers}
use sc_adat_appliance.Listing.Flow.Ends.{dataflow_finishes}
use sc_adat_appliance.Listing.Pointer.{
  Value, unknown, known, merge_state, pointer_flow, dptr_dataflow, Access, Xref, Xrefs, access_of,
  add_access, add_row, mentions, xrefs_of, xdata_xrefs,
}
use sc_adat_appliance.Listing.Pointer.Laws.{pointer_flow-IsFlow}

-- The analysis of a listing with a row, whose labels all stand at rows, returns.
pub dptr_dataflow_returns :
    (rows : List Row) (labels : Names)
    → 0 < length rows
    → Placed (length rows) labels
    → (states : List (Cell Value)) × (dptr_dataflow rows labels ≡ finished states)
unfolding dptr_dataflow pointer_flow
dptr_dataflow_returns rows labels some_row placed =
    dataflow_finishes (pointer_flow rows labels) (pointer_flow-IsFlow rows labels) (length rows)
      (roots rows labels)
      (λ i lt j m. Below-mem (length rows) _ (successors-Below rows labels i placed) j m)
      (λ r m. Below-mem (length rows) _ (roots-Below rows labels some_row) r m)

-- What stands behind an entry of the result.
record Resolved (rows : List Row) (states : List (Cell Value)) (x : Xref) : Type 0 where
  index : ℕ
  at_row : get_elem? rows index ≡ some x.row
  at_state : get_elem? states index ≡ some (some (known x.address))
  accessed : access_of x.row.text ≡ some x.access

Resolved-later :
    (row : Row) (rows : List Row) (state : Cell Value) (states : List (Cell Value)) (x : Xref)
    → Resolved rows states x
    → Resolved (row ∷ rows) (state ∷ states) x
unfolding get_elem?
Resolved-later row rows state states x r = record {
  index = suc r.index;
  at_row = r.at_row;
  at_state = r.at_state;
  accessed = r.accessed;
}

add_row-Resolved :
    (row : Row) (rows : List Row) (state : Cell Value) (states : List (Cell Value)) (found : Xrefs)
    → ((x : Xref) → Memᴰ x found.resolved → Resolved rows states x)
    → (x : Xref) → Memᴰ x (add_row row state found).resolved
    → Resolved (row ∷ rows) (state ∷ states) x
unfolding get_elem?
add_row-Resolved row rows none states found h x m = Resolved-later row rows none states x (h x m)
add_row-Resolved row rows (some unknown) states found h x m =
    Resolved-later row rows (some unknown) states x (h x m)
add_row-Resolved row rows (some (known n)) states found h x m = go (access_of row.text) refl m
  where
    go :
        (a : Option Access)
        → access_of row.text ≡ a
        → Memᴰ x (add_access n row a found).resolved
        → Resolved (row ∷ rows) (some (known n) ∷ states) x
    go none e k = Resolved-later row rows (some (known n)) states x (h x k)
    go (some a) e k = elim (Memᴰ.cases_cons k) [
      | inr later ↦ Resolved-later row rows (some (known n)) states x (h x later)
      | inl same ↦ rw same (record { index = 0; at_row = refl; at_state = refl; accessed = e })
    ]

xrefs_of-Resolved :
    (rows : List Row) (states : List (Cell Value)) (x : Xref)
    → Memᴰ x (xrefs_of rows states).resolved
    → Resolved rows states x
unfolding xrefs_of
xrefs_of-Resolved [] states x m = absurd (Memᴰ.not-nil m)
xrefs_of-Resolved (row ∷ rows) [] x m = absurd (Memᴰ.not-nil m)
xrefs_of-Resolved (row ∷ rows) (state ∷ states) x m =
    elim (Bool-cases (mentions "movx" (lowered row.text))) [
      | inl access ↦
          add_row-Resolved row rows state states (xrefs_of rows states)
            (xrefs_of-Resolved rows states) x (rw access at m)
      | inr other ↦
          Resolved-later row rows state states x (xrefs_of-Resolved rows states x (rw other at m))
    ]

pub below_known : (b : Value) (n : ℕ) → merge_state (known n) b ≡ known n → b ≡ known n
unfolding merge_state
below_known unknown n h = cc
below_known (known m) n h = ground arith

-- The walks through the rows that the analysis follows, from a root with an unknown pointer.
abbrev pub PointerWalk : List Row → Names → ℕ → ℕ → Value → Type 0
PointerWalk rows labels root i b = Walk (pointer_flow rows labels) root unknown i b

-- A resolved access stands at a row of its kind, and every walk from a root to this row comes
-- there with the address that is reported.
pub xdata_xrefs-Walks :
    (rows : List Row) (labels : Names) (found : Xrefs) (x : Xref)
    → xdata_xrefs rows labels ≡ some found
    → Memᴰ x found.resolved
    → (i : ℕ) × (get_elem? rows i ≡ some x.row)
      × (access_of x.row.text ≡ some x.access)
      × ((root : ℕ) (b : Value)
          → Memᴰ root (roots rows labels)
          → PointerWalk rows labels root i b
          → b ≡ known x.address)
unfolding xdata_xrefs dptr_dataflow
xdata_xrefs-Walks rows labels found x h m = go (dptr_dataflow rows labels) refl h
  where
    go :
        (o : Outcome Value)
        → dptr_dataflow rows labels ≡ o
        → elim o [ finished states ↦ some (xrefs_of rows states) | _ ↦ none ] ≡ some found
        → (i : ℕ) × (get_elem? rows i ≡ some x.row)
          × (access_of x.row.text ≡ some x.access)
          × ((root : ℕ) (b : Value)
              → Memᴰ root (roots rows labels)
              → PointerWalk rows labels root i b
              → b ≡ known x.address)
    go index_error e k = cc
    go unset e k = cc
    go out_of_fuel e k = cc
    go (finished states) e k =
        let same : xrefs_of rows states ≡ found = cc in
        let r = xrefs_of-Resolved rows states x (rw same m) in
        (
          r.index,
          r.at_row,
          r.accessed,
          λ root b from walk.
              let (t, at_i, le) =
                dataflow-Covers (pointer_flow rows labels) (pointer_flow-IsFlow rows labels)
                  (length rows) (roots rows labels) states root r.index b e from walk in
              let eq : t ≡ known x.address = cc (at_i, r.at_state) in
              below_known b x.address (rw eq at le),
        )
