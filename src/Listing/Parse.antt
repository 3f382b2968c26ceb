-- ===== src/Listing/Parse.antt =====
-- `parse_asm` of deep_u17_analysis.py, over the lines of the listing.
pub mod Ordered
use sc_adat_appliance.Base.{
  ℕ, zero, suc, ◌+◌, ◌-◌, ◌*◌, ◌≡◌, Bool, true, false, ◌&&◌, ◌||◌, Option, none, some, List, [],
  ◌∷◌, ◌++◌, ◌==◌, leb, if◌then◌else◌, length,
}
use sc_adat_appliance.Base.Text.{Text, codes, strip, is_space}
use sc_adat_appliance.Base.Bytes.{same}
use sc_adat_appliance.Base.Regex.{
  Regex, Match, nothing, finish, edge, one, seq, alt, many, few, group, match, search_in, group_of,
  has, char, lit, some_of, optional, spaces, hex, hex4, is_hex, is_word, one_of,
}
use sc_adat_appliance.Listing.{Row, Names, named, rename}
use sc_adat_appliance.Listing.Opcodes.{instruction_length}

unfoldable pub begins_name : ℕ → Bool
begins_name c = leb b'A' c && leb c b'Z' || leb b'a' c && leb c b'z' || c == b'_'

-- `[A-Za-z_][A-Za-z0-9_]*`
unfoldable pub name : Regex
unfolding begins_name is_word
name = seq (one begins_name) (many (one is_word))

unfoldable pub label_re : Regex
unfolding name char
label_re = seq (group 0 name) (seq (char b':') (seq spaces finish))

unfoldable pub org_re : Regex
unfolding name lit char some_of is_hex
org_re = seq spaces (
    seq (lit "org")
      (seq (some_of (one is_space)) (group 0 (alt (seq (some_of hex) (char b'h')) name))))

-- `\[([0-9A-Fa-f]+)h\]`
unfoldable pub bracketed : ℕ → Regex
unfolding char some_of is_hex
bracketed n = seq (char b'[') (seq (group n (some_of hex)) (seq (char b'h') (char b']')))

abbrev any_char : Regex
any_char = one (λ c. true)

abbrev not_semicolon : ℕ → Bool
not_semicolon c = if c == b';' then false else true

-- Group 0 is `text`, group 1 is `addr`.
unfoldable pub ins_re : Regex
unfolding char optional bracketed
ins_re = seq spaces (
    seq (group 0 (seq (one not_semicolon) (few (one not_semicolon)))) (
      seq (optional (seq spaces (seq (char b';') (seq spaces (bracketed 1)))))
        (seq (optional (seq spaces (seq (char b';') (many any_char)))) (seq spaces finish))))

unfoldable pub data_re : Regex
unfolding char bracketed
data_re = seq (char b';') (seq spaces (bracketed 0))

unfoldable pub label_address_re : Regex
unfolding one_of char hex4 lit is_hex
label_address_re =
    seq (one_of ("jump" ∷ "fwd" ∷ "dptr" ∷ []))
      (seq (char b'_') (seq (group 0 hex4) (alt (char b'_') finish)))

unfoldable pub digit_value : ℕ → ℕ
digit_value c = if leb c b'9' then c - b'0' else if leb c b'F' then c - 55 else c - 87

-- `int(text, 16)` of letters, digits and underscores, which may stand between digits; `none` is a
-- ValueError.
unfoldable pub hex_number : ℕ → Bool → Text → Option ℕ
unfolding is_hex digit_value
hex_number n after [] = if after then some n else none
hex_number n after (c ∷ cs) =
    let digit = hex_number (n * 16 + digit_value c) true cs in
    let gap = hex_number n false cs in
    if is_hex c then digit else if after && c == b'_' then gap else none

abbrev pub hex_int : Option Text → Option ℕ
hex_int none = none
hex_int (some t) = hex_number 0 false t

unfoldable pub label_address : Text → Option ℕ
unfolding label_address_re hex_number
label_address t = hex_int (group_of 0 (match label_address_re t))

abbrev org_symbols : Names
org_symbols =
    (codes "RESET", 0x0000)
    ∷ (codes "EXT0", 0x0003)
    ∷ (codes "TIMER0", 0x000B)
    ∷ (codes "EXT1", 0x0013)
    ∷ (codes "TIMER1", 0x001B)
    ∷ (codes "SIO0_UART", 0x0023)
    ∷ (codes "SIO1_I2C", 0x002B)
    ∷ (codes "T2_CAPTURE0", 0x0033)
    ∷ (codes "T2_CAPTURE1", 0x003B)
    ∷ (codes "T2_CAPTURE2", 0x0043)
    ∷ (codes "T2_CAPTURE3", 0x004B)
    ∷ (codes "ADC_COMPLETE", 0x0053)
    ∷ (codes "T2_COMPARE0", 0x005B)
    ∷ (codes "T2_COMPARE1", 0x0063)
    ∷ (codes "T2_COMPARE2", 0x006B)
    ∷ (codes "T2_OVERFLOW", 0x0073)
    ∷ []

-- What the loop of `parse_asm` changes. `rows` has the latest row last.
pub record Listing : Type 0 where
  pub rows : List Row
  pub labels : Names
  pub label_addresses : Names
  pub current : Text
  pub cursor : Option ℕ

-- Whether the text ends with `h`, and the text before it.
unfoldable pub before_h : Text → Option Text
before_h [] = none
before_h (c ∷ []) = if c == b'h' then some [] else none
before_h (c ∷ d ∷ ds) = elim (before_h (d ∷ ds)) [ none ↦ none | some t ↦ some (c ∷ t) ]

abbrev some_number : Option ℕ → Option (Option ℕ)
some_number none = none
some_number (some n) = some (some n)

-- The cursor after an `org`; the outer `none` is a ValueError.
unfoldable pub org_cursor : Text → Option (Option ℕ)
unfolding before_h hex_number named
org_cursor value = elim (before_h value) [
  | some digits ↦ some_number (hex_number 0 false digits)
  | none ↦ some (named value org_symbols)
]

abbrev pub or_address : Option ℕ → Option ℕ → Option ℕ
or_address none cursor = cursor
or_address (some a) cursor = some a

abbrev with_address : Text → Option ℕ → Names → Names
with_address label none names = names
with_address label (some a) names = rename label a names

unfoldable pub on_label : Text → Listing → Listing
unfolding rename label_address
on_label label s =
    let cursor = or_address (label_address label) s.cursor in
    record s {
      current = label;
      labels = rename label (length s.rows) s.labels;
      cursor = cursor;
      label_addresses = with_address label cursor s.label_addresses;
    }

-- A line of data only moves the cursor.
unfoldable pub on_data : Option Text → Listing → Listing
unfolding hex_number
on_data none s = s
on_data (some digits) s = elim (hex_number 0 false digits) [
  | none ↦ s
  | some a ↦ record s { cursor = some (a + 1) }
]

abbrev advanced : Option ℕ → ℕ → Option ℕ
advanced none size = none
advanced (some a) size = some (a + size)

-- The cursor stays where the row has no address.
unfoldable pub on_instruction : List ℕ → Text → Option Text → Listing → Listing
unfolding instruction_length hex_number
on_instruction rom text addr s =
    let address = or_address (hex_int addr) s.cursor in
    let size = instruction_length rom address in
    record s {
      rows =
          s.rows
          ++ record {
            address = address;
            text = text;
            function = s.current;
            ordinal = length s.rows;
            size = size;
          }
            ∷ [];
      cursor = or_address (advanced address size) s.cursor;
    }

unfoldable pub starts_with : Text → Text → Bool
starts_with t [] = true
starts_with [] (c ∷ cs) = false
starts_with (d ∷ ds) (c ∷ cs) = d == c && starts_with ds cs

-- `not text or text.startswith((...))`
unfoldable pub is_directive : Text → Bool
unfolding starts_with
is_directive [] = true
is_directive (c ∷ cs) =
    starts_with (c ∷ cs) (codes "db ")
    || starts_with (c ∷ cs) (b'd' ∷ b'b' ∷ 9 ∷ [])
    || starts_with (c ∷ cs) (codes "org")
    || starts_with (c ∷ cs) (codes ";")
    || starts_with (c ∷ cs) (codes "$")
    || starts_with (c ∷ cs) (codes "cseg")

abbrev pub text_of : Option Text → Text
text_of none = []
text_of (some t) = strip t

abbrev on_code : List ℕ → Text → Option Match → Listing → Listing
on_code rom line none s = on_data (group_of 0 (search_in data_re line)) s
on_code rom line (some m) s =
    let text = text_of (group_of 0 (some m)) in
    if is_directive text
    then on_data (group_of 0 (search_in data_re line)) s
    else on_instruction rom text (group_of 1 (some m)) s

abbrev after_org : Listing → Option (Option ℕ) → Option Listing
after_org s none = none
after_org s (some cursor) = some (record s { cursor = cursor })

abbrev on_other : List ℕ → Text → Listing → Option Text → Listing
on_other rom line s none = on_code rom line (match ins_re line) s
on_other rom line s (some label) = on_label label s

-- One round of `for line in ...`; `none` is a ValueError.
unfoldable pub on_line : List ℕ → Text → Listing → Option Listing
unfolding org_cursor on_label on_data on_instruction is_directive ins_re data_re label_re org_re
on_line rom line s = elim (group_of 0 (match org_re line)) [
  | some value ↦ after_org s (org_cursor value)
  | none ↦ some (on_other rom line s (group_of 0 (match label_re line)))
]

unfoldable pub on_lines : List ℕ → List Text → Listing → Option Listing
on_lines rom [] s = some s
on_lines rom (line ∷ lines) s = elim (on_line rom line s) [
  | none ↦ none
  | some t ↦ on_lines rom lines t
]

abbrev unread : Listing
unread = record {
  rows = [];
  labels = [];
  label_addresses = [];
  current = codes "(unlabeled)";
  cursor = none;
}

unfoldable pub parse_asm : List ℕ → List Text → Option Listing
unfolding on_lines on_line
parse_asm rom lines = on_lines rom lines unread
