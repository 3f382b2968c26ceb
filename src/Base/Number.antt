-- ===== src/Base/Number.antt =====
-- Python's `int(text)` in base ten, over the ASCII digits.
use Prim.Native.Nat.{ℕ, zero, suc, ◌+◌, ◌-◌, ◌*◌}
use mathlib.Core.Bool.{Bool, true, false, ◌&&◌}
use mathlib.Core.Option.{Option, none, some}
use mathlib.Core.List.{[], ◌∷◌}
use sc_adat_appliance.Base.Tests.{◌==◌, leb, if◌then◌else◌}
use sc_adat_appliance.Base.Text.{Text, strip}
use sc_adat_appliance.Base.Int.{ℤ, pos, negsuc}

abbrev pub is_decimal : ℕ → Bool
is_decimal c = leb b'0' c && leb c b'9'

-- Digits with single underscores between them; `after` says that a digit stands before.
unfoldable pub digits : ℕ → Bool → Text → Option ℕ
digits n after [] = if after then some n else none
digits n after (c ∷ cs) =
    let digit = digits (n * 10 + (c - b'0')) true cs in
    let gap = digits n false cs in
    if is_decimal c then digit else if after && c == b'_' then gap else none

abbrev pub natural : Option ℕ → Option ℤ
natural none = none
natural (some n) = some (pos n)

abbrev pub negated : Option ℕ → Option ℤ
negated none = none
negated (some zero) = some (pos 0)
negated (some (suc n)) = some (negsuc n)

abbrev pub signed : Text → Option ℤ
signed [] = none
signed (c ∷ cs) =
    if c == b'-'
    then negated (digits 0 false cs)
    else if c == b'+'
    then natural (digits 0 false cs)
    else natural (digits 0 false (c ∷ cs))

-- `none` is a `ValueError`.
unfoldable pub int_of_text : Text → Option ℤ
int_of_text t = signed (strip t)
