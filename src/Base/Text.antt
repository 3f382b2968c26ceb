-- ===== src/Base/Text.antt =====
-- Python's `str` as the list of its code points: white space, `strip`, and membership.
use Prim.Native.Nat.{ℕ, ◌+◌, ◌/◌, ◌%◌}
use Prim.Native.Char.{code}
use Prim.Native.String.{String}
use mathlib.Core.Path.{◌≡◌, refl}
use mathlib.Core.Logic.{inl, inr}
use mathlib.Core.Bool.{Bool, true, false, ◌&&◌, ◌||◌}
use mathlib.Core.List.{List, [], ◌∷◌}
use sc_adat_appliance.Base.Tests.{◌==◌, leb, ltb, if◌then◌else◌, Bool-cases}
use sc_adat_appliance.Base.Bytes.{same}

abbrev pub Text : Type 0
Text = List ℕ

-- The code points of a literal.
abbrev pub codes : String → Text
codes String.[] = []
codes (String.◌∷◌ c s) = code c ∷ codes s

-- `str.isspace` of one character.
unfoldable pub is_space : ℕ → Bool
is_space c =
    leb 9 c && leb c 13
    || leb 28 c && leb c 32
    || c == 0x85
    || c == 0xA0
    || c == 0x1680
    || leb 0x2000 c && leb c 0x200A
    || c == 0x2028
    || c == 0x2029
    || c == 0x202F
    || c == 0x205F
    || c == 0x3000

-- `str.lstrip()`
unfoldable pub strip_left : Text → Text
strip_left [] = []
strip_left (c ∷ cs) = if is_space c then strip_left cs else c ∷ cs

-- `c` in front of an already stripped end: a trailing white space is dropped.
abbrev pub keep : ℕ → Text → Text
keep c [] = if is_space c then [] else c ∷ []
keep c (d ∷ ds) = c ∷ d ∷ ds

-- `str.rstrip()`
unfoldable pub strip_right : Text → Text
strip_right [] = []
strip_right (c ∷ cs) = keep c (strip_right cs)

unfoldable pub strip : Text → Text
strip t = strip_right (strip_left t)

-- A text that begins with a character that stays begins so after `rstrip`.
strip_right-cons :
    (c : ℕ) (cs : Text) → is_space c ≡ false → (ds : Text) × (strip_right (c ∷ cs) ≡ c ∷ ds)
unfolding strip_right
strip_right-cons c cs h = go (strip_right cs) h
  where
    go : (ds : Text) → is_space c ≡ false → (es : Text) × (keep c ds ≡ c ∷ es)
    go [] e = ([], rw e)
    go (d ∷ ds) e = (d ∷ ds, refl)

strip_right-keep : (c : ℕ) (ds : Text) → strip_right ds ≡ ds → strip_right (keep c ds) ≡ keep c ds
unfolding strip_right
strip_right-keep c [] h = elim (Bool-cases (is_space c)) [
  | inl e ↦ rw e refl
  | inr e ↦ rw (e, e) refl
]
strip_right-keep c (d ∷ ds) h = rw h refl

strip_right_idem : (t : Text) → strip_right (strip_right t) ≡ strip_right t
unfolding strip_right
strip_right_idem [] = refl
strip_right_idem (c ∷ cs) = strip_right-keep c (strip_right cs) (strip_right_idem cs)

-- Stripping a stripped text changes nothing.
pub strip_idem : (t : Text) → strip (strip t) ≡ strip t
unfolding strip strip_left
strip_idem [] = unfold strip_right in refl
strip_idem (c ∷ cs) = go (strip_idem cs)
  where
    go :
        strip_right (strip_left (strip_right (strip_left cs))) ≡ strip_right (strip_left cs)
        → strip_right (strip_left (strip_right (strip_left (c ∷ cs))))
          ≡ strip_right (strip_left (c ∷ cs))
    go ih = elim (Bool-cases (is_space c)) [
      | inl e ↦ rw e ih
      | inr e ↦
          let (ds, start) = strip_right-cons c cs e in
          rw (e, start, e, ← start) (strip_right_idem (c ∷ cs))
    ]

-- `t in ts`
unfoldable pub contains : List Text → Text → Bool
contains [] t = false
contains (s ∷ ss) t = same s t || contains ss t

-- `str(n)` of a number below 100.
unfoldable pub decimal : ℕ → Text
decimal n = if ltb n 10 then (48 + n) ∷ [] else (48 + n / 10) ∷ (48 + n % 10) ∷ []

-- `s <= t` of two texts.
unfoldable pub comes_before : Text → Text → Bool
comes_before [] t = true
comes_before (c ∷ cs) [] = false
comes_before (c ∷ cs) (d ∷ ds) = let later = comes_before cs ds in if c == d then later else ltb c d
