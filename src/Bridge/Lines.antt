-- ===== src/Bridge/Lines.antt =====
-- The regular expressions of dyaxis/bridge/adb_mouse_bridge.py, as parsers of a line.
use sc_adat_appliance.Base.{
  ℕ, ◌+◌, ◌-◌, ◌*◌, zero, suc, length, Bool, true, false, ◌&&◌, Option, none, some, List, [], ◌∷◌,
  leb, ◌==◌, if◌then◌else◌,
}
use sc_adat_appliance.Base.Text.{Text, codes, is_space, strip_left}

-- A literal text at the front.
unfoldable pub literal : Text → Text → Option Text
literal [] line = some line
literal (c ∷ cs) [] = none
literal (c ∷ cs) (d ∷ ds) = let rest = literal cs ds in if c == d then rest else none

-- `\s+`
unfoldable pub spaces : Text → Option Text
spaces [] = none
spaces (c ∷ cs) = if is_space c then some (strip_left cs) else none

-- `int(digit, 16)` of a digit in `[0-9A-Fa-f]`.
unfoldable pub hex_digit : ℕ → Option ℕ
hex_digit c =
    if leb b'0' c && leb c b'9'
    then some (c - b'0')
    else if leb b'A' c && leb c b'F'
    then some (c - b'A' + 10)
    else if leb b'a' c && leb c b'f'
    then some (c - b'a' + 10)
    else none

abbrev pub joined_digits : Option ℕ → Option ℕ → Text → Option (ℕ × Text)
joined_digits (some hi) (some lo) rest = some (hi * 16 + lo, rest)
joined_digits _ _ rest = none

-- `[0-9A-Fa-f]{2}` as a number, and what follows it.
unfoldable pub hex_byte : Text → Option (ℕ × Text)
hex_byte (c ∷ d ∷ rest) = joined_digits (hex_digit c) (hex_digit d) rest
hex_byte _ = none

abbrev pub then_hex : Option Text → Option (ℕ × Text)
then_hex none = none
then_hex (some rest) = hex_byte rest

-- `\s+[0-9A-Fa-f]{2}`
unfoldable pub spaced_byte : Text → Option (ℕ × Text)
spaced_byte line = then_hex (spaces line)

-- `(?:\s+[0-9A-Fa-f]{2})+` split at white space, on fuel: a token takes three characters.
unfoldable pub byte_tokens : ℕ → Text → List ℕ
byte_tokens zero line = []
byte_tokens (suc fuel) line = elim (spaced_byte line) [
  | none ↦ []
  | some (b, rest) ↦ b ∷ byte_tokens fuel rest
]

abbrev pub then_last : ℕ → Option (ℕ × Text) → Option (ℕ × ℕ)
then_last a none = none
then_last a (some (b, end)) = some (a, b)

abbrev pub then_second : Option (ℕ × Text) → Option (ℕ × ℕ)
then_second none = none
then_second (some (a, rest)) = then_last a (spaced_byte rest)

-- Two spaced bytes, as the `PACKET` and `KEYSTATUS` expressions end.
unfoldable pub two_bytes : Text → Option (ℕ × ℕ)
two_bytes line = then_second (spaced_byte line)

abbrev pub then_literal : Text → Option Text → Option Text
then_literal t none = none
then_literal t (some rest) = literal t rest

abbrev pub then_spaces : Option Text → Option Text
then_spaces none = none
then_spaces (some rest) = spaces rest

abbrev pub then_two : Option Text → Option (ℕ × ℕ)
then_two none = none
then_two (some rest) = two_bytes rest

-- `PACKET` and `KEYSTATUS`: a register's name, two, and two bytes.
unfoldable pub register_bytes : Text → Text → Option (ℕ × ℕ)
register_bytes name line = then_two (then_literal (codes "2:") (then_spaces (literal name line)))

unfoldable pub packet_bytes : Text → Option (ℕ × ℕ)
packet_bytes line = register_bytes (codes "D3R0") line

abbrev pub is_digit : ℕ → Bool
is_digit c = leb b'0' c && leb c b'9'

-- `\d*`
unfoldable pub skip_digits : Text → Text
skip_digits [] = []
skip_digits (c ∷ cs) = let rest = skip_digits cs in if is_digit c then rest else c ∷ cs

-- `\d+:`
unfoldable pub count_colon : Text → Option Text
count_colon [] = none
count_colon (c ∷ cs) = if is_digit c then literal (codes ":") (skip_digits cs) else none

abbrev pub then_tokens : Option Text → Option (List ℕ)
then_tokens none = none
then_tokens (some line) = elim (spaced_byte line) [
  | none ↦ none
  | some (b, rest) ↦ some (b ∷ byte_tokens (length rest) rest)
]

abbrev pub then_count : Option Text → Option Text
then_count none = none
then_count (some rest) = count_colon rest

-- The numbers of the tokens that `KEYPACKET` finds, in order.
unfoldable pub key_bytes : Text → Option (List ℕ)
key_bytes line = then_tokens (then_count (then_spaces (literal (codes "K2R0") line)))

unfoldable pub is_key_status : Text → Bool
is_key_status line = elim (register_bytes (codes "K2R3") line) [ none ↦ false | some p ↦ true ]
