-- ===== src/Bulk.antt =====
-- The bulk state of the mixer: mixer/mixerctl.py `state_chunk_packets`, and in Bulk/Client the
-- receiver in mixer/console.py.
pub mod Client
pub mod Pairs
pub mod Indexes
pub mod Parts
pub mod Repeats
pub mod Held
pub mod Packets
pub mod Reassembly
pub mod Delivery
mod Tests
use sc_adat_appliance.Base.{
  ℕ, ◌+◌, ◌-◌, ◌*◌, ◌/◌, zero, suc, Bool, true, false, List, [], ◌∷◌, ◌++◌, length, slice, ltb, leb,
  ◌==◌, if◌then◌else◌,
}
use sc_adat_appliance.Base.Int.{ℤ, pos}
use sc_adat_appliance.Base.Text.{Text, codes, comes_before}
use sc_adat_appliance.Base.Result.{Result, ok, err}
use sc_adat_appliance.Base.Sealed.{◌>>=◌}
use sc_adat_appliance.Osc.{Arg, int, flt, str, Floats, OscError, packet}

-- A value of the mixer's state. A number is the float that `packet` makes of it.
pub data Value (F : Type 0) : Type 0 where
  number : F → Value F
  text : Text → Value F

-- The arguments of `packet`, and what `parse_packet` returns.
pub record Message (F : Type 0) : Type 0 where
  pub path : Text
  pub types : Text
  pub values : List (Arg F)

-- BULK_STATE_ENTRIES
abbrev pub bulk_state_entries : ℕ
bulk_state_entries = 8

-- `max(1, (len(items) + entries_per_chunk - 1) // entries_per_chunk)`
unfoldable pub total_chunks : ℕ → ℕ → ℕ
total_chunks size n = let quotient = (n + size - 1) / size in if leb 1 quotient then quotient else 1

module _ {F : Type 0} where
  -- `sorted(state.items())`; no two keys are the same.
  unfoldable pub insert_item : Text × Value F → List (Text × Value F) → List (Text × Value F)
  insert_item e [] = e ∷ []
  insert_item e (f ∷ fs) =
      let later = insert_item e fs in if comes_before e.0 f.0 then e ∷ f ∷ fs else f ∷ later

  unfoldable pub sorted_items : List (Text × Value F) → List (Text × Value F)
  sorted_items [] = []
  sorted_items (e ∷ es) = insert_item e (sorted_items es)

  abbrev pub tag_of : Value F → ℕ
  tag_of (number x) = b'f'
  tag_of (text t) = b's'

  abbrev pub as_arg : Value F → Arg F
  as_arg (number x) = flt x
  as_arg (text t) = str t

  -- The inner loop: the tags and the values of the pairs.
  unfoldable pub pair_types : List (Text × Value F) → Text
  pair_types [] = []
  pair_types ((key, value) ∷ rest) = b's' ∷ tag_of value ∷ pair_types rest

  unfoldable pub pair_values : List (Text × Value F) → List (Arg F)
  pair_values [] = []
  pair_values ((key, value) ∷ rest) = str key ∷ as_arg value ∷ pair_values rest

  -- The snapshot is the text `str(snapshot)`.
  abbrev pub chunk : Text → ℕ → ℕ → List (Text × Value F) → Message F
  chunk snapshot index total pairs = record {
    path = codes "/mixer/state-chunk";
    types = codes ",sii" ++ pair_types pairs;
    values = str snapshot ∷ int (pos index) ∷ int (pos total) ∷ pair_values pairs;
  }

  -- `items[index * entries_per_chunk:(index + 1) * entries_per_chunk]`
  abbrev pub part : ℕ → List (Text × Value F) → ℕ → List (Text × Value F)
  part size items index = slice (index * size) ((index + 1) * size) items

  abbrev pub complete : Text → ℕ → ℕ → Message F
  complete snapshot total entries = record {
    path = codes "/mixer/state-complete";
    types = codes ",sii";
    values = str snapshot ∷ int (pos total) ∷ int (pos entries) ∷ [];
  }

  abbrev pub legacy_complete : ℕ → Message F
  legacy_complete entries = record {
    path = codes "/mixer/get-all-done";
    types = codes ",i";
    values = int (pos entries) ∷ [];
  }

module _ (floats : Floats) where
  open floats use {F}

  abbrev pub packed : Message F → Result OscError (List ℕ)
  packed m = packet floats m.path m.types m.values

  -- `for index in range(total)`, from an index on.
  unfoldable pub chunks_from :
      ℕ → Text → List (Text × Value F) → ℕ → ℕ → ℕ → Result OscError (List (List ℕ))
  chunks_from size snapshot items total zero index = ok []
  chunks_from size snapshot items total (suc rounds) index =
      packed (chunk snapshot index total (part size items index)) >>= λ one.
      chunks_from size snapshot items total rounds (suc index) >>= λ more. ok (one ∷ more)

  unfoldable pub state_chunk_packets :
      ℕ → Text → List (Text × Value F) → Result OscError (List (List ℕ) × List ℕ × List ℕ)
  state_chunk_packets size snapshot state =
      let items = sorted_items state in
      let total = total_chunks size (length items) in
      chunks_from size snapshot items total total 0 >>= λ chunks.
      packed (complete snapshot total (length items)) >>= λ completion.
      packed (legacy_complete (length items)) >>= λ legacy. ok (chunks, completion, legacy)
