-- ===== src/Listing/Pointer.antt =====
-- The analysis of the data pointer in deep_u17_analysis.py: `merge_state`, `transfer_dptr`,
-- `dptr_dataflow` and `xdata_xrefs`.
pub mod Laws
pub mod Walks
use Prim.Native.String.{String}
use sc_adat_appliance.Base.{
  ℕ, ◌+◌, ◌%◌, Bool, true, false, not, ◌&&◌, ◌||◌, Option, none, some, List, [], ◌∷◌, ◌==◌,
  if◌then◌else◌, length, get_elem?,
}
use sc_adat_appliance.Base.Text.{Text, codes, is_space}
use sc_adat_appliance.Base.Regex.{
  Regex, edge, one, seq, group, search_in, group_of, has, char, lit, lit_i, some_of, one_of,
  one_of_i, hex4, is_hex,
}
use sc_adat_appliance.Listing.{Row, Names}
use sc_adat_appliance.Listing.Parse.{hex_int, hex_number}
use sc_adat_appliance.Listing.Control.{lowered, successors, roots, is_call}
use sc_adat_appliance.Listing.Flow.{Flow, Cell, Outcome, finished, dataflow}

-- UNKNOWN, or an integer.
pub data Value : Type 0 where
  unknown : Value
  known : ℕ → Value

-- `merge_state` of two states that are set.
unfoldable pub merge_state : Value → Value → Value
merge_state unknown new = unknown
merge_state (known n) unknown = unknown
merge_state (known n) (known m) = if n == m then known n else unknown

unfoldable pub same_value : Value → Value → Bool
same_value unknown unknown = true
same_value unknown (known m) = false
same_value (known n) unknown = false
same_value (known n) (known m) = n == m

-- What a row does to the pointer.
pub data Effect : Type 0 where
  sets : ℕ → Effect
  clears steps keeps : Effect

unfoldable pub literal_re : Regex
unfolding one_of hex4 char is_hex
literal_re = seq (char b'#') (seq (one_of ("dptr" ∷ "fwd" ∷ [])) (seq (char b'_') (group 0 hex4)))

-- `\b(?:a|b)\s+NAME\b`, and the same under `re.I`.
unfoldable pub op_re : List String → String → Regex
unfolding one_of some_of lit
op_re ops name = seq edge (seq (one_of ops) (seq (some_of (one is_space)) (seq (lit name) edge)))

unfoldable pub op_re_i : List String → String → Regex
unfolding one_of_i some_of lit_i
op_re_i ops name =
    seq edge (seq (one_of_i ops) (seq (some_of (one is_space)) (seq (lit_i name) edge)))

unfoldable pub found : Regex → Text → Bool
found r text = has (search_in r text)

-- `part in text`
unfoldable pub mentions : String → Text → Bool
unfolding lit found
mentions part text = found (lit part) text

abbrev byte_ops : List String
byte_ops = "mov" ∷ "inc" ∷ "dec" ∷ "add" ∷ "subb" ∷ "xch" ∷ []

-- The tests of `transfer_dptr` below the literal, in their order.
unfoldable pub other_effect : Text → Effect
unfolding op_re op_re_i found mentions is_call
other_effect text =
    if is_call text
    then clears
    else if (found (op_re ("pop" ∷ "mov" ∷ []) "DPH") text
          || found (op_re ("pop" ∷ "mov" ∷ []) "DPL") text)
        && (not (mentions "mov DPTR" text) || not (mentions "#" text))
    then clears
    else if found (op_re_i ("inc" ∷ []) "DPTR") text
    then steps
    else if found (op_re_i byte_ops "DPH") text
    then clears
    else if found (op_re_i byte_ops "DPL") text
    then clears
    else keeps

unfoldable pub effect : Text → Effect
unfolding literal_re hex_number other_effect
effect text = elim (hex_int (group_of 0 (search_in literal_re text))) [
  | some n ↦ sets n
  | none ↦ other_effect text
]

unfoldable pub act : Effect → Value → Value
act (sets n) state = known n
act clears state = unknown
act steps unknown = unknown
act steps (known n) = known ((n + 1) % 0x10000)
act keeps state = state

abbrev pub act_of : Option Row → Value → Value
act_of none state = state
act_of (some row) state = act (effect row.text) state

-- `transfer_dptr(rows[index], state)`
unfoldable pub transfer_dptr : List Row → ℕ → Value → Value
unfolding effect act
transfer_dptr rows i state = act_of (get_elem? rows i) state

-- A state changes once, from a number to UNKNOWN.
unfoldable pub pointer_flow : List Row → Names → Flow Value
unfolding merge_state same_value transfer_dptr
pointer_flow rows labels = record {
  join = merge_state;
  same = same_value;
  unknown = unknown;
  transfer = transfer_dptr rows;
  successors = successors rows labels;
  height = 1;
}

unfoldable pub dptr_dataflow : List Row → Names → Outcome Value
unfolding pointer_flow
dptr_dataflow rows labels = dataflow (pointer_flow rows labels) (length rows) (roots rows labels)

pub data Access : Type 0 where
  read write : Access

pub record Xref : Type 0 where
  pub address : ℕ
  pub access : Access
  pub row : Row

pub record Xrefs : Type 0 where
  pub resolved : List Xref
  pub unresolved : List Row

unfoldable pub access_of : Text → Option Access
unfolding mentions
access_of text =
    if mentions "movx A, @DPTR" text
    then some read
    else if mentions "movx @DPTR, A" text
    then some write
    else none

abbrev pub add_access : ℕ → Row → Option Access → Xrefs → Xrefs
add_access n row none found = found
add_access n row (some access) found = record found {
  resolved = record { address = n; access = access; row = row } ∷ found.resolved;
}

-- Both UNSET and UNKNOWN count as unknown.
abbrev pub add_row : Row → Cell Value → Xrefs → Xrefs
add_row row none found = record found { unresolved = row ∷ found.unresolved }
add_row row (some unknown) found = record found { unresolved = row ∷ found.unresolved }
add_row row (some (known n)) found = add_access n row (access_of row.text) found

unfoldable pub xrefs_of : List Row → List (Cell Value) → Xrefs
unfolding mentions access_of lowered
xrefs_of [] states = record { resolved = []; unresolved = [] }
xrefs_of (row ∷ rows) [] = record { resolved = []; unresolved = [] }
xrefs_of (row ∷ rows) (state ∷ states) =
    let later = xrefs_of rows states in
    if mentions "movx" (lowered row.text) then add_row row state later else later

-- `none` is an analysis that does not return.
unfoldable pub xdata_xrefs : List Row → Names → Option Xrefs
unfolding dptr_dataflow xrefs_of
xdata_xrefs rows labels = elim (dptr_dataflow rows labels) [
  | finished states ↦ some (xrefs_of rows states)
  | _ ↦ none
]
