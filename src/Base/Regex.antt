-- ===== src/Base/Regex.antt =====
-- Python's `re` as far as the sources use it: a backtracking matcher that takes the alternatives in
-- the order of `re`, over texts without line breaks whose letters are ASCII.
use Prim.Native.String.{String}
use sc_adat_appliance.Base.{
  ℕ, zero, suc, ◌+◌, ◌-◌, Bool, true, false, not, ◌&&◌, ◌||◌, Option, none, some, List, [], ◌∷◌,
  ◌==◌, leb, if◌then◌else◌, length, take,
}
use sc_adat_appliance.Base.Dict.{get}
use sc_adat_appliance.Base.Text.{Text, codes, is_space}

pub data Regex : Type 0 where
  -- `\b`, and `$` on a text without line breaks
  nothing edge finish : Regex
  one : (ℕ → Bool) → Regex
  seq alt : Regex → Regex → Regex
  -- `r*` and `r*?`
  many few : Regex → Regex
  group : ℕ → Regex → Regex

-- The character before the position, and the text from it on.
abbrev pub Place : Type 0
Place = Option ℕ × Text

abbrev pub Groups : Type 0
Groups = List (ℕ × Text)

-- Where a match ends, and what its groups hold, the latest first.
abbrev pub Match : Type 0
Match = Place × Groups

unfoldable pub is_word : ℕ → Bool
is_word c =
    leb b'0' c && leb c b'9' || leb b'A' c && leb c b'Z' || leb b'a' c && leb c b'z' || c == b'_'

abbrev pub word_at : Option ℕ → Bool
word_at none = false
word_at (some c) = is_word c

abbrev pub head_of : Text → Option ℕ
head_of [] = none
head_of (c ∷ cs) = some c

abbrev pub differs : Bool → Bool → Bool
differs true b = not b
differs false b = b

abbrev or_else : Option Match → Option Match → Option Match
or_else none later = later
or_else (some m) later = some m

abbrev Next : Type 0
Next = Place → Groups → Option Match

-- `r*` on fuel, each round taking a character.
repeat : (Place → Groups → Next → Option Match) → Bool → ℕ → Place → Groups → Next → Option Match
repeat r greedy zero p g k = k p g
repeat r greedy (suc n) p g k =
    let more =
      r p g (λ q h. if leb (length p.1) (length q.1) then none else repeat r greedy n q h k) in
    if greedy then or_else more (k p g) else or_else (k p g) more

abbrev step_one : (ℕ → Bool) → Place → Groups → Next → Option Match
step_one test (before, []) g k = none
step_one test (before, c ∷ cs) g k = if test c then k (some c, cs) g else none

run : Regex → Place → Groups → Next → Option Match
unfolding repeat
run nothing p g k = k p g
run edge p g k = if differs (word_at p.0) (word_at (head_of p.1)) then k p g else none
run finish (b, []) g k = k (b, []) g
run finish (b, c ∷ cs) g k = none
run (one test) p g k = step_one test p g k
run (seq r s) p g k = run r p g (λ q h. run s q h k)
run (alt r s) p g k = or_else (run r p g k) (run s p g k)
run (many r) p g k = repeat (run r) true (length p.1) p g k
run (few r) p g k = repeat (run r) false (length p.1) p g k
run (group n r) p g k = run r p g (λ q h. k q ((n, take (length p.1 - length q.1) p.1) ∷ h))

-- `re.match(pattern, text)`
unfoldable pub match : Regex → Text → Option Match
unfolding run
match r t = run r (none, t) [] (λ p g. some (p, g))

search_from : Regex → Option ℕ → Text → Option Match
unfolding run
search_from r before [] = run r (before, []) [] (λ p g. some (p, g))
search_from r before (c ∷ cs) =
    let later = search_from r (some c) cs in
    elim (run r (before, c ∷ cs) [] (λ p g. some (p, g))) [ none ↦ later | some m ↦ some m ]

-- `re.search(pattern, text)`
unfoldable pub search_in : Regex → Text → Option Match
unfolding search_from
search_in r t = search_from r none t

-- The last of `re.findall(pattern, text)`, for a pattern with one group round the whole of it.
last_from : ℕ → Regex → Text → Option Text → Option Text
unfolding search_in
last_from zero r t found = found
last_from (suc n) r t found = elim (search_in r t) [
  | none ↦ found
  | some (p, g) ↦ last_from n r p.1 (get 0 g)
]

unfoldable pub last_of : Regex → Text → Option Text
unfolding last_from
last_of r t = last_from (length t) r t none

abbrev pub has : Option Match → Bool
has none = false
has (some m) = true

-- `match.group(n)`
abbrev pub group_of : ℕ → Option Match → Option Text
group_of n none = none
group_of n (some (p, g)) = get n g

-- Pieces of patterns.
unfoldable pub char : ℕ → Regex
char c = one (λ d. c == d)

unfoldable pub letters : Text → Regex
unfolding char
letters [] = nothing
letters (c ∷ cs) = seq (char c) (letters cs)

-- A literal text.
unfoldable pub lit : String → Regex
unfolding letters
lit s = letters (codes s)

abbrev lower_letter : ℕ → ℕ
lower_letter c = if leb b'A' c && leb c b'Z' then c + 32 else c

unfoldable pub any_case : Text → Regex
any_case [] = nothing
any_case (c ∷ cs) = seq (one (λ d. lower_letter c == lower_letter d)) (any_case cs)

-- A literal text under `re.I`.
unfoldable pub lit_i : String → Regex
unfolding any_case
lit_i s = any_case (codes s)

unfoldable pub some_of : Regex → Regex
some_of r = seq r (many r)

unfoldable pub optional : Regex → Regex
optional r = alt r nothing

abbrev pub spaces : Regex
spaces = many (one is_space)

unfoldable pub is_hex : ℕ → Bool
is_hex c = leb b'0' c && leb c b'9' || leb b'A' c && leb c b'F' || leb b'a' c && leb c b'f'

abbrev pub hex : Regex
hex = one is_hex

-- `[0-9A-Fa-f]{4}`
unfoldable pub hex4 : Regex
hex4 = seq hex (seq hex (seq hex hex))

unfoldable pub one_of : List String → Regex
unfolding lit
one_of [] = one (λ c. false)
one_of (s ∷ ss) = alt (lit s) (one_of ss)

unfoldable pub one_of_i : List String → Regex
unfolding lit_i
one_of_i [] = one (λ c. false)
one_of_i (s ∷ ss) = alt (lit_i s) (one_of_i ss)
