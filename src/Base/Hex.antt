-- ===== src/Base/Hex.antt =====
-- Bytes as two hexadecimal digits in upper case, and their reading.
use sc_adat_appliance.Base.{
  ℕ, ◌+◌, ◌-◌, ◌*◌, ◌/◌, ◌%◌, ◌<◌, ◌≡◌, ◌≢◌, refl, ap, ◌&&◌, Option, none, some, List, [], ◌∷◌,
  ◌++◌, leb, ltb, if◌then◌else◌, All, arith,
}
use sc_adat_appliance.Base.Bytes.{AllBytes}
use sc_adat_appliance.Base.Text.{Text}

-- A digit of `%X`.
unfoldable pub digit : ℕ → ℕ
digit n = if ltb n 10 then 48 + n else 55 + n

-- `f"{b:02X}"` of a byte.
unfoldable pub hex2 : ℕ → Text
unfolding digit
hex2 b = digit (b / 16 % 16) ∷ digit (b % 16) ∷ []

-- `bytes.hex().upper()`
unfoldable pub hex_upper : List ℕ → Text
unfolding hex2
hex_upper [] = []
hex_upper (b ∷ bs) = hex2 b ++ hex_upper bs

-- The value of a digit.
unfoldable pub digit_of : ℕ → Option ℕ
digit_of c =
    if leb 48 c && leb c 57
    then some (c - 48)
    else if leb 65 c && leb c 70
    then some (c - 55)
    else none

abbrev pub pair_of : Option ℕ → Option ℕ → Option (List ℕ) → Option (List ℕ)
pair_of (some hi) (some lo) (some rest) = some ((hi * 16 + lo) ∷ rest)
pair_of _ _ _ = none

-- The bytes of a text of digit pairs.
unfoldable pub read_hex : Text → Option (List ℕ)
unfolding digit_of
read_hex [] = some []
read_hex (c ∷ []) = none
read_hex (c ∷ d ∷ rest) = pair_of (digit_of c) (digit_of d) (read_hex rest)

digit_of-digit : (n : ℕ) → n < 16 → digit_of (digit n) ≡ some n
unfolding digit digit_of
digit_of-digit n h = ground arith

pub read_hex-hex_upper : (bs : List ℕ) → AllBytes bs → read_hex (hex_upper bs) ≡ some bs
unfolding hex_upper hex2 read_hex
read_hex-hex_upper [] h = refl
read_hex-hex_upper (b ∷ bs) h =
    let whole : b / 16 % 16 * 16 + b % 16 ≡ b = omega (arith, h.0) in
    rw
      (
        digit_of-digit (b / 16 % 16) (omega arith),
        digit_of-digit (b % 16) (omega arith),
        read_hex-hex_upper bs h.1,
      )
      (ap (λ (n : ℕ). some (n ∷ bs)) whole)

-- No digit is a line break.
digit-ne : (n : ℕ) → digit n ≢ 10
unfolding digit
digit-ne n = ground arith

pub hex_upper-ne : (bs : List ℕ) → All (λ c. c ≢ 10) (hex_upper bs)
unfolding hex_upper hex2
hex_upper-ne [] = tt
hex_upper-ne (b ∷ bs) = (digit-ne (b / 16 % 16), (digit-ne (b % 16), hex_upper-ne bs))

pub hex_upper-append : (xs ys : List ℕ) → hex_upper (xs ++ ys) ≡ hex_upper xs ++ hex_upper ys
unfolding hex_upper hex2
hex_upper-append [] ys = refl
hex_upper-append (x ∷ xs) ys =
    ap (λ (t : Text). digit (x / 16 % 16) ∷ digit (x % 16) ∷ t) (hex_upper-append xs ys)
