-- ===== src/Listing/Calls.antt =====
-- `target_address`, `external_calls` and `resolved_register_abi` of deep_u17_analysis.py.
pub mod Walks
use Prim.Native.Nat.{bit_or}
use sc_adat_appliance.Base.{
  ℕ, zero, suc, ◌+◌, ◌*◌, Bool, true, false, Option, none, some, List, [], ◌∷◌, ◌==◌, leb,
  if◌then◌else◌, length, get_elem?, slice,
}
use sc_adat_appliance.Base.Dict.{get, put}
use sc_adat_appliance.Base.Text.{Text, is_space}
use sc_adat_appliance.Base.Regex.{
  Regex, finish, edge, one, seq, alt, group, match, search_in, group_of, lit, some_of, one_of, hex4,
  is_hex, is_word,
}
use sc_adat_appliance.Listing.{Row, Names}
use sc_adat_appliance.Listing.Parse.{name, hex_int, hex_number}
use sc_adat_appliance.Listing.Flow.{Cell, Outcome, finished}
use sc_adat_appliance.Listing.Pointer.{Value, unknown, known}
use sc_adat_appliance.Listing.Registers.{Register, r1, r2, Registers, register_dataflow}

-- `(?:jump|fwd)_([0-9A-Fa-f]{4})` or `dptr_([0-9A-Fa-f]{4})`, the whole text.
unfoldable pub target_re : Regex
unfolding one_of lit hex4 is_hex
target_re = seq (one_of ("jump" ∷ "fwd" ∷ "dptr" ∷ [])) (seq (lit "_") (seq (group 0 hex4) finish))

unfoldable pub target_address : Text → Option ℕ
unfolding target_re hex_number
target_address t = hex_int (group_of 0 (match target_re t))

unfoldable pub call_target_re : Regex
unfolding one_of some_of name
call_target_re =
    seq edge (seq (one_of ("lcall" ∷ "acall" ∷ [])) (seq (some_of (one is_space)) (group 0 name)))

abbrev pub address_of : Option Text → Option ℕ
address_of none = none
address_of (some t) = target_address t

-- A call of the page above the ROM. Its location is the address of the row.
pub record Call : Type 0 where
  pub row : Row
  pub target : ℕ

abbrev pub add_call : Row → Option ℕ → List Call → List Call
add_call row none calls = calls
add_call row (some n) calls =
    if leb 0x4000 n then record { row = row; target = n } ∷ calls else calls

unfoldable pub external_calls : List Row → List Call
unfolding call_target_re target_address
external_calls [] = []
external_calls (row ∷ rows) =
    add_call row (address_of (group_of 0 (search_in call_target_re row.text))) (external_calls rows)

abbrev pub put_row : Option ℕ → ℕ → List (ℕ × ℕ) → List (ℕ × ℕ)
put_row none i rows = rows
put_row (some address) i rows = put address i rows

-- `by_address`: of two rows with one address the last one counts.
unfoldable pub by_address : ℕ → List Row → List (ℕ × ℕ) → List (ℕ × ℕ)
unfolding put
by_address i [] found = found
by_address i (row ∷ rows) found = by_address (suc i) rows (put_row row.address i found)

pub record Resolved : Type 0 where
  pub call : Call
  pub index : ℕ
  pub values : Registers
  pub dptr : Option ℕ
  pub pointer : Option ℕ
  pub post : List Text

abbrev pub pointer_in : Value → Value → Option ℕ
pointer_in unknown low = none
pointer_in (known high) unknown = none
pointer_in (known high) (known low) = some (bit_or (high * 0x100) low)

abbrev pub known_in : Cell Value → Option ℕ
known_in (some (known n)) = some n
known_in _ = none

abbrev texts : List Row → List Text
texts [] = []
texts (row ∷ rows) = row.text ∷ texts rows

unfoldable pub resolve : List Row → Call → ℕ → Registers → Cell Value → Resolved
unfolding slice
resolve rows call i values state = record {
  call = call;
  index = i;
  values = values;
  dptr = known_in state;
  pointer = pointer_in (values r2) (values r1);
  post = texts (slice (suc i) (i + 5) rows);
}

-- `dptr_states[index]`; `none` is an IndexError.
abbrev pub with_state :
    List Row → Call → ℕ → Registers → Option (Cell Value) → List Resolved → Option (List Resolved)
with_state rows call i values none later = none
with_state rows call i values (some state) later = some (resolve rows call i values state ∷ later)

abbrev pub at_state :
    List Row
    → List (Cell Value)
    → Call
    → ℕ
    → Option (Cell Registers)
    → List Resolved
    → Option (List Resolved)
at_state rows dptr_states call i (some (some values)) later =
    with_state rows call i values (get_elem? dptr_states i) later
at_state rows dptr_states call i _ later = some later

abbrev pub at_index :
    List Row
    → List (Cell Value)
    → List (Cell Registers)
    → Call
    → Option ℕ
    → List Resolved
    → Option (List Resolved)
at_index rows dptr_states states call none later = some later
at_index rows dptr_states states call (some i) later =
    at_state rows dptr_states call i (get_elem? states i) later

-- A call whose row has no address is located at `unresolved-address`, which is no number: `none`
-- is a ValueError.
abbrev pub located :
    List Row
    → List (Cell Value)
    → List (Cell Registers)
    → List (ℕ × ℕ)
    → Call
    → Option ℕ
    → Option (List Resolved)
    → Option (List Resolved)
located rows dptr_states states index call none later = none
located rows dptr_states states index call (some address) none = none
located rows dptr_states states index call (some address) (some later) =
    at_index rows dptr_states states call (get address index) later

unfoldable pub resolve_calls :
    List Row
    → List (Cell Value)
    → List (Cell Registers)
    → List (ℕ × ℕ)
    → List Call
    → Option (List Resolved)
unfolding get_elem? get resolve
resolve_calls rows dptr_states states index [] = some []
resolve_calls rows dptr_states states index (call ∷ calls) =
    located rows dptr_states states index call call.row.address
      (resolve_calls rows dptr_states states index calls)

-- `none` also stands for an analysis that does not return.
unfoldable pub resolved_register_abi :
    List Row → Names → List Call → List (Cell Value) → Option (List Resolved)
unfolding register_dataflow by_address resolve_calls
resolved_register_abi rows labels calls dptr_states = elim (register_dataflow rows labels) [
  | finished states ↦ resolve_calls rows dptr_states states (by_address 0 rows []) calls
  | _ ↦ none
]
