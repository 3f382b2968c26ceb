-- ===== src/Bulk/Client.antt =====
-- mixer/console.py: `OscClient.get_all`, over the datagrams that arrive in each attempt.
use sc_adat_appliance.Base.{
  ℕ, ◌%◌, zero, suc, Bool, true, false, not, ◌&&◌, ◌||◌, Option, none, some, List, [], ◌∷◌, length,
  take, drop, ltb, ◌==◌, if◌then◌else◌,
}
use sc_adat_appliance.Base.Bytes.{same}
use sc_adat_appliance.Base.Dict.{get, put}
use sc_adat_appliance.Base.Int.{ℤ, pos, negsuc}
use sc_adat_appliance.Base.Result.{Result, ok, err}
use sc_adat_appliance.Base.Sealed.{◌>>=◌, ◌>>◌, raise_if}
use sc_adat_appliance.Base.Text.{Text, codes}
use sc_adat_appliance.Osc.{Arg, int, flt, str, Floats, OscError, struct_error, parse_packet}
use sc_adat_appliance.Bulk.{Message}

pub data ClientError : Type 0 where
  malformed_chunk mixed_snapshots bad_index malformed_pairs bad_value_type : ClientError
  conflicting_duplicate malformed_completion mixed_completion : ClientError
  inconsistent_count entry_count_mismatch conversion unreadable incomplete : ClientError
  -- not caught by an attempt
  struct_error_raised : ClientError

-- A dictionary of the state, in insertion order.
abbrev pub Entries : Type 0 → Type 0
Entries F = List (Text × Arg F)

module _ {F : Type 0} where
  unfoldable pub put_entry : Text → Arg F → Entries F → Entries F
  put_entry k v [] = (k, v) ∷ []
  put_entry k v ((j, w) ∷ rest) =
      let later = put_entry k v rest in if same j k then (j, v) ∷ rest else (j, w) ∷ later

  unfoldable pub get_entry : Text → Entries F → Option (Arg F)
  get_entry k [] = none
  get_entry k ((j, w) ∷ rest) = let later = get_entry k rest in if same j k then some w else later

  -- `state.update(entries)`
  unfoldable pub update : Entries F → Entries F → Entries F
  update state [] = state
  update state ((k, v) ∷ rest) = update (put_entry k v state) rest

-- The local variables of an attempt.
pub record Client (F : Type 0) : Type 0 where
  pub snapshot : Option Text
  pub completion : Option (ℤ × ℤ)
  pub chunks : List (ℕ × (ℤ × Entries F))

abbrev pub fresh : {F : Type 0} → Client F
fresh = record { snapshot = none; completion = none; chunks = [] }

abbrev pub int_equal : ℤ → ℤ → Bool
int_equal (pos m) (pos n) = m == n
int_equal (negsuc m) (negsuc n) = m == n
int_equal (pos m) (negsuc n) = false
int_equal (negsuc m) (pos n) = false

abbrev pub in_range : ℤ → ℤ → Bool
in_range (pos i) (pos n) = ltb i n
in_range (pos i) (negsuc n) = false
in_range (negsuc i) n = false

-- An index that is in range.
abbrev pub index_of : ℤ → ℕ
index_of (pos i) = i
index_of (negsuc i) = 0

abbrev pub or_conversion : Option ℤ → Result ClientError ℤ
or_conversion none = err conversion
or_conversion (some n) = ok n

abbrev pub is_snapshot : Text → Option Text → Bool
is_snapshot t none = true
is_snapshot t (some s) = same t s

module _ {A : Type 0} where
  -- `set(chunks) == set(range(n))` with `len(chunks) == n`.
  unfoldable pub all_below : ℕ → List (ℕ × A) → Bool
  all_below n [] = true
  all_below n ((k, v) ∷ rest) = ltb k n && all_below n rest

  abbrev pub is_there : Option A → Bool
  is_there none = false
  is_there (some a) = true

  unfoldable pub has_below : ℕ → List (ℕ × A) → Bool
  has_below zero d = true
  has_below (suc n) d = is_there (get n d) && has_below n d

  unfoldable pub has_all : ℤ → List (ℕ × A) → Bool
  has_all (negsuc n) d = false
  has_all (pos n) d = length d == n && all_below n d && has_below n d

-- What `parse_packet` returns or raises. The `except` of an attempt takes a ValueError, but not the
-- error of `struct`.
abbrev pub as_message :
    {F : Type 0} → Result OscError (Text × Text × List (Arg F)) → Result ClientError (Message F)
as_message (ok (path, types, values)) = ok (record { path = path; types = types; values = values })
as_message (err struct_error) = err struct_error_raised
as_message (err other) = err unreadable

module _ (floats : Floats) (equal : floats.F → floats.F → Bool) where
  open floats use {F, int_of, text_of}

  -- The loop over the pairs, whose lengths have been checked.
  unfoldable pub read_pairs : Text → List (Arg F) → Entries F → Result ClientError (Entries F)
  read_pairs (a ∷ b ∷ types) (key ∷ value ∷ pairs) entries =
      raise_if (not (a == b's') || not (b == b'f' || b == b's')) bad_value_type
      >> read_pairs types pairs (put_entry (text_of key) value entries)
  read_pairs types pairs entries = ok entries

  -- `==` of two values: a pair's value is a float or a text.
  abbrev pub same_value : Arg F → Arg F → Bool
  same_value (flt x) (flt y) = equal x y
  same_value (str s) (str t) = same s t
  same_value (int m) (int n) = int_equal m n
  same_value v w = false

  abbrev pub same_found : Option (Arg F) → Arg F → Bool
  same_found none w = false
  same_found (some v) w = same_value v w

  unfoldable pub contained : Entries F → Entries F → Bool
  contained d [] = true
  contained d ((k, w) ∷ rest) = same_found (get_entry k d) w && contained d rest

  -- `==` of two dictionaries.
  unfoldable pub same_entries : Entries F → Entries F → Bool
  same_entries d e = length d == length e && contained d e

  abbrev pub conflicts : Option (ℤ × Entries F) → ℤ → Entries F → Bool
  conflicts none total entries = false
  conflicts (some (t, e)) total entries = not (int_equal t total && same_entries e entries)

  unfoldable pub read_chunk : Text → List (Arg F) → Client F → Result ClientError (Client F)
  read_chunk types (a ∷ b ∷ c ∷ pairs) m = do
    raise_if (not (same (take 4 types) (codes ",sii"))) malformed_chunk
    index ← or_conversion (int_of b)
    total ← or_conversion (int_of c)
    raise_if (not (is_snapshot (text_of a) m.snapshot)) mixed_snapshots
    raise_if (not (in_range index total)) bad_index
    raise_if (not (length pairs == length (drop 4 types)) || not (length pairs % 2 == 0))
        malformed_pairs
    entries ← read_pairs (drop 4 types) pairs []
    raise_if (conflicts (get (index_of index) m.chunks) total entries) conflicting_duplicate
    ok (record m {
      snapshot = some (text_of a);
      chunks = put (index_of index) (total, entries) m.chunks;
    })
  read_chunk types values m = err malformed_chunk

  unfoldable pub read_completion : Text → List (Arg F) → Client F → Result ClientError (Client F)
  read_completion types (a ∷ b ∷ c ∷ []) m = do
    raise_if (not (same types (codes ",sii"))) malformed_completion
    chunk_count ← or_conversion (int_of b)
    entry_count ← or_conversion (int_of c)
    raise_if (not (is_snapshot (text_of a) m.snapshot)) mixed_completion
    ok (record m { snapshot = some (text_of a); completion = some (chunk_count, entry_count) })
  read_completion types values m = err malformed_completion

  unfoldable pub receive : Message F → Client F → Result ClientError (Client F)
  receive message m =
      if same (message.path) (codes "/mixer/state-chunk")
      then read_chunk (message.types) (message.values) m
      else if same (message.path) (codes "/mixer/state-complete")
      then read_completion (message.types) (message.values) m
      else ok m

  -- One round of the loop over the indexes, each of which is there.
  abbrev pub collect_one : ℤ → Entries F → Option (ℤ × Entries F) → Result ClientError (Entries F)
  collect_one count state none = err incomplete
  collect_one count state (some (announced, entries)) =
      if int_equal announced count then ok (update state entries) else err inconsistent_count

  -- `for index in range(chunk_count)`, from an index on.
  unfoldable pub collect :
      ℕ → ℕ → ℤ → List (ℕ × (ℤ × Entries F)) → Entries F → Result ClientError (Entries F)
  collect zero index count chunks state = ok state
  collect (suc rounds) index count chunks state =
      collect_one count state (get index chunks) >>= λ s. collect rounds (suc index) count chunks s

  abbrev pub counted : ℤ → Entries F → Result ClientError (Entries F)
  counted n state = if int_equal (pos (length state)) n then ok state else err entry_count_mismatch

  -- The check after a datagram: `none` goes on receiving.
  abbrev pub finish_with :
      Option (ℤ × ℤ) → List (ℕ × (ℤ × Entries F)) → Option (Result ClientError (Entries F))
  finish_with none chunks = none
  finish_with (some (chunk_count, entry_count)) chunks =
      if has_all chunk_count chunks
      then some (collect (index_of chunk_count) 0 chunk_count chunks [] >>= counted entry_count)
      else none

  unfoldable pub finish : Client F → Option (Result ClientError (Entries F))
  finish m = finish_with (m.completion) (m.chunks)

  abbrev pub go_on :
      Option (Result ClientError (Entries F))
      → Result ClientError (Entries F)
      → Result ClientError (Entries F)
  go_on none later = later
  go_on (some result) later = result

  -- An attempt, over the datagrams that it receives before its deadline.
  unfoldable pub attempt : List (List ℕ) → Client F → Result ClientError (Entries F)
  attempt [] m = err incomplete
  attempt (bytes ∷ inbox) m = as_message (parse_packet floats bytes) >>= λ message.
      receive message m >>= λ m1. go_on (finish m1) (attempt inbox m1)

  abbrev pub is_caught : ClientError → Bool
  is_caught struct_error_raised = false
  is_caught other = true

  -- `for attempt in range(STATE_RETRIES)`; `none` is the final TimeoutError, or an error that is not
  -- caught.
  unfoldable pub attempts : ℕ → List (List (List ℕ)) → Option (Entries F)
  attempts zero inboxes = none
  attempts (suc n) [] = none
  attempts (suc n) (inbox ∷ inboxes) = elim (attempt inbox fresh) [
    | ok state ↦ some state
    | err e ↦ let later = attempts n inboxes in if is_caught e then later else none
  ]

  abbrev pub get_all : List (List (List ℕ)) → Option (Entries F)
  get_all inboxes = attempts 3 inboxes
