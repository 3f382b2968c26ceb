-- ===== src/Listing/Flow.antt =====
-- The work list of `dptr_dataflow` and of `register_dataflow`, which the source writes out twice:
-- the states that it joins, and the step from a row to the rows after it, are parameters.
pub mod Steps
pub mod Seed
pub mod Ends
pub mod Sound
use sc_adat_appliance.Base.{
  ℕ, zero, suc, ◌+◌, ◌*◌, Bool, true, not, Option, none, some, List, [], ◌∷◌, ◌++◌, if◌then◌else◌,
  length, get_elem?, replicate,
}
use sc_adat_appliance.Base.Cells.{set}

pub record Flow (S : Type 0) : Type 0 where
  -- the merge of two states that are not UNSET
  pub join : S → S → S
  pub same : S → S → Bool
  pub unknown : S
  -- the state after a row, from the state before it
  pub transfer : ℕ → S → S
  pub successors : ℕ → List ℕ
  -- how often a state can change
  pub height : ℕ

-- An entry of `incoming`: `none` is UNSET.
abbrev pub Cell : Type 0 → Type 0
Cell S = Option S

pub record Work (S : Type 0) : Type 0 where
  pub incoming : List (Cell S)
  pub queue : List ℕ

-- `index_error` is Python's IndexError; `unset` is a row taken from the queue with no state.
pub data Outcome (S : Type 0) : Type 0 where
  finished : List (Cell S) → Outcome S
  index_error unset out_of_fuel : Outcome S

-- How a round of `while queue` ends.
pub data Round (S : Type 0) : Type 0 where
  out_of_range no_state : Round S
  passed_on : Work S → Round S

module _ {S : Type 0} (f : Flow S) where
  unfoldable pub merge : Cell S → S → S
  merge none new = new
  merge (some old) new = f.join old new

  unfoldable pub changes : Cell S → S → Bool
  changes none merged = true
  changes (some old) merged = not (f.same old merged)

  abbrev pub store : S → ℕ → Work S → Cell S → Work S
  store out j w old =
      let merged = merge old out in
      if changes old merged
      then record { incoming = set w.incoming j (some merged); queue = w.queue ++ j ∷ [] }
      else w

  -- One round of `for successor in successors(...)`.
  unfoldable pub offer : S → ℕ → Work S → Option (Work S)
  offer out j w = elim (get_elem? w.incoming j) [
    | none ↦ none
    | some old ↦ some (store out j w old)
  ]

  abbrev pub then_offer : Option (Work S) → (Work S → Option (Work S)) → Option (Work S)
  then_offer none next = none
  then_offer (some w) next = next w

  unfoldable pub offer_all : S → List ℕ → Work S → Option (Work S)
  offer_all out [] w = some w
  offer_all out (j ∷ js) w = then_offer (offer out j w) (offer_all out js)

  -- One round of `while queue`, with the row `i` taken from the queue.
  unfoldable pub expand : ℕ → List ℕ → List (Cell S) → Option (Cell S) → Round S
  expand i rest incoming none = out_of_range
  expand i rest incoming (some none) = no_state
  expand i rest incoming (some (some s)) =
      elim (offer_all (f.transfer i s) (f.successors i)
        (record { incoming = incoming; queue = rest })) [
          | none ↦ out_of_range
          | some w ↦ passed_on w
        ]

  unfoldable pub loop : ℕ → List (Cell S) → List ℕ → Outcome S
  loop fuel incoming [] = finished incoming
  loop zero incoming (i ∷ rest) = out_of_fuel
  loop (suc fuel) incoming (i ∷ rest) = elim (expand i rest incoming (get_elem? incoming i)) [
    | out_of_range ↦ index_error
    | no_state ↦ unset
    | passed_on w ↦ loop fuel w.incoming w.queue
  ]

  -- `for root in roots`: the queue that it fills is the list of the roots.
  unfoldable pub seed : List ℕ → List (Cell S) → Option (List (Cell S))
  seed [] incoming = some incoming
  seed (r ∷ rs) incoming = elim (get_elem? incoming r) [
    | none ↦ none
    | some old ↦ seed rs (set incoming r (some (merge old f.unknown)))
  ]

  -- The whole analysis of `count` rows. The fuel is a bound on the rounds.
  unfoldable pub dataflow : ℕ → List ℕ → Outcome S
  dataflow count roots = elim (seed roots (replicate count none)) [
    | none ↦ index_error
    | some incoming ↦ loop (length roots + suc f.height * count) incoming roots
  ]
