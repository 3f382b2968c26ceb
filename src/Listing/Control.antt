-- ===== src/Listing/Control.antt =====
-- `branch_target`, `successors` and the roots of the two data flow analyses of
-- deep_u17_analysis.py. The roots are a set there; its order is the order of the labels here.
pub mod Range
use sc_adat_appliance.Base.{
  ℕ, suc, ◌+◌, Bool, true, false, not, ◌&&◌, ◌||◌, Option, none, some, List, [], ◌∷◌, ◌==◌, ltb,
  leb, if◌then◌else◌, length, get_elem?,
}
use sc_adat_appliance.Base.Text.{Text, codes, contains}
use sc_adat_appliance.Base.Regex.{
  Regex, edge, one, seq, group, search_in, last_of, has, lit, some_of, one_of, is_word,
}
use sc_adat_appliance.Listing.{Row, Names, named}
use sc_adat_appliance.Listing.Opcodes.{is_in}
use sc_adat_appliance.Listing.Parse.{starts_with}

unfoldable pub lower_letter : ℕ → ℕ
lower_letter c = if leb b'A' c && leb c b'Z' then c + 32 else c

-- `text.lower()` on ASCII.
unfoldable pub lowered : Text → Text
unfolding lower_letter
lowered [] = []
lowered (c ∷ cs) = lower_letter c ∷ lowered cs

-- `(?:jump|fwd)_[0-9A-Za-z_]+`
unfoldable pub target_re : Regex
unfolding one_of lit some_of is_word
target_re = group 0 (seq (one_of ("jump" ∷ "fwd" ∷ [])) (seq (lit "_") (some_of (one is_word))))

unfoldable pub branch_target : Text → Option Text
unfolding target_re
branch_target text = last_of target_re text

-- `\b(?:lcall|acall)\b`
unfoldable pub call_re : Regex
unfolding one_of
call_re = seq edge (seq (one_of ("lcall" ∷ "acall" ∷ [])) edge)

unfoldable pub is_call : Text → Bool
unfolding call_re
is_call text = has (search_in call_re text)

unfoldable pub starts_with_any : Text → List Text → Bool
unfolding starts_with
starts_with_any t [] = false
starts_with_any t (s ∷ ss) = starts_with t s || starts_with_any t ss

abbrev pub label_of : Names → Option Text → Option ℕ
label_of labels none = none
label_of labels (some t) = named t labels

abbrev pub target_only : Option ℕ → List ℕ
target_only none = []
target_only (some j) = j ∷ []

-- `[nxt] if nxt is not None else []`, for `count` rows.
unfoldable pub following : ℕ → ℕ → List ℕ
following count i = if ltb (suc i) count then suc i ∷ [] else []

abbrev pub target_and : Option ℕ → List ℕ → List ℕ
target_and none rest = rest
target_and (some j) rest = j ∷ rest

-- How a row goes on, by the start of its text.
pub data Kind : Type 0 where
  returns jumps branches falls : Kind

unfoldable pub kind_of : Text → Kind
unfolding starts_with_any
kind_of lower =
    if starts_with_any lower (codes "ret" ∷ codes "reti" ∷ [])
    then returns
    else if starts_with_any lower (codes "ljmp " ∷ codes "sjmp " ∷ codes "ajmp " ∷ [])
    then jumps
    else if starts_with_any lower (codes "j" ∷ codes "djnz " ∷ codes "cjne " ∷ [])
    then branches
    else falls

abbrev pub by_kind : Kind → Option ℕ → List ℕ → List ℕ
by_kind returns target next = []
by_kind jumps target next = target_only target
by_kind branches target next = target_and target next
by_kind falls target next = next

unfoldable pub successors_of : ℕ → Names → ℕ → Text → List ℕ
unfolding lowered kind_of following branch_target named
successors_of count labels i text =
    by_kind (kind_of (lowered text)) (label_of labels (branch_target text)) (following count i)

abbrev pub row_successors : ℕ → Names → ℕ → Option Row → List ℕ
row_successors count labels i none = []
row_successors count labels i (some row) = successors_of count labels i row.text

unfoldable pub successors : List Row → Names → ℕ → List ℕ
unfolding successors_of
successors rows labels i = row_successors (length rows) labels i (get_elem? rows i)

abbrev pub with_ref : Text → Option Text → List Text → List Text
with_ref text none refs = refs
with_ref text (some t) refs = if is_call text then refs else t ∷ refs

-- The targets of the rows that are no calls.
unfoldable pub branch_refs : List Row → List Text
unfolding is_call branch_target
branch_refs [] = []
branch_refs (row ∷ rows) = with_ref row.text (branch_target row.text) (branch_refs rows)

abbrev pub add_root : ℕ → List ℕ → List ℕ
add_root i found = if is_in i found then found else i ∷ found

unfoldable pub label_roots : ℕ → List Text → Names → List ℕ
unfolding is_in contains
label_roots count refs [] = 0 ∷ []
label_roots count refs ((name, i) ∷ labels) =
    let found = label_roots count refs labels in
    if ltb i count && not (contains refs name) then add_root i found else found

unfoldable pub roots : List Row → Names → List ℕ
unfolding label_roots branch_refs
roots rows labels = label_roots (length rows) (branch_refs rows) labels
