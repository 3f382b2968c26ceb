-- ===== src/Base/Utf8.antt =====
-- `str.encode()` and `bytes.decode()`: UTF-8, strict.
use Prim.Native.Nat.{ℕ, zero, suc, ◌+◌, ◌-◌, ◌*◌, ◌/◌, ◌%◌, ◌≤◌, ◌<◌}
use mathlib.Core.Path.{◌≡◌, refl, ap}
use mathlib.Core.Logic.{◌≢◌, inl, inr}
use mathlib.Core.Bool.{Bool, not, ◌&&◌}
use mathlib.Core.Option.{Option, none, some}
use mathlib.Core.List.{List, [], ◌∷◌, ◌++◌}
use native.Mathlib.Omega.{arith}
use sc_adat_appliance.Base.Tests.{leb, ltb, if◌then◌else◌, Bool-cases}
use sc_adat_appliance.Base.Lists.{length, length-append, All, All-append}
use sc_adat_appliance.Base.Text.{Text}

-- `none` is a `UnicodeEncodeError`.
unfoldable pub encode_char : ℕ → Option (List ℕ)
encode_char c =
    if ltb c 0x80
    then some (c ∷ [])
    else if ltb c 0x800
    then some ((0xC0 + c / 64) ∷ (0x80 + c % 64) ∷ [])
    else if ltb c 0x10000
    then (if leb 0xD800 c && leb c 0xDFFF
        then none
        else some ((0xE0 + c / 4096) ∷ (0x80 + c / 64 % 64) ∷ (0x80 + c % 64) ∷ []))
    else if ltb c 0x110000
    then some
        ((0xF0 + c / 262144) ∷ (0x80 + c / 4096 % 64) ∷ (0x80 + c / 64 % 64) ∷ (0x80 + c % 64) ∷ [])
    else none

abbrev joined : Option (List ℕ) → Option (List ℕ) → Option (List ℕ)
joined none _ = none
joined (some bs) none = none
joined (some bs) (some cs) = some (bs ++ cs)

unfoldable pub encode : Text → Option (List ℕ)
encode [] = some []
encode (c ∷ cs) = joined (encode_char c) (encode cs)

abbrev continues : ℕ → Bool
continues b = leb 0x80 b && leb b 0xBF

abbrev decode_2 : ℕ → List ℕ → Option (ℕ × List ℕ)
decode_2 a (b ∷ rest) = if continues b then some ((a - 0xC0) * 64 + (b - 0x80), rest) else none
decode_2 a [] = none

-- Neither longer than it needs to be nor a surrogate.
abbrev decode_3 : ℕ → List ℕ → Option (ℕ × List ℕ)
decode_3 a (b ∷ c ∷ rest) =
    let n = (a - 0xE0) * 4096 + (b - 0x80) * 64 + (c - 0x80) in
    if continues b && continues c && leb 0x800 n && not (leb 0xD800 n && leb n 0xDFFF)
    then some (n, rest)
    else none
decode_3 a _ = none

abbrev decode_4 : ℕ → List ℕ → Option (ℕ × List ℕ)
decode_4 a (b ∷ c ∷ d ∷ rest) =
    let n = (a - 0xF0) * 262144 + (b - 0x80) * 4096 + (c - 0x80) * 64 + (d - 0x80) in
    if continues b && continues c && continues d && leb 0x10000 n && leb n 0x10FFFF
    then some (n, rest)
    else none
decode_4 a _ = none

-- The first character and what follows it.
unfoldable pub decode_char : List ℕ → Option (ℕ × List ℕ)
decode_char [] = none
decode_char (a ∷ rest) =
    if ltb a 0x80
    then some (a, rest)
    else if leb 0xC2 a && leb a 0xDF
    then decode_2 a rest
    else if leb 0xE0 a && leb a 0xEF
    then decode_3 a rest
    else if leb 0xF0 a && leb a 0xF4
    then decode_4 a rest
    else none

abbrev cons_to : ℕ → Option Text → Option Text
cons_to c none = none
cons_to c (some cs) = some (c ∷ cs)

-- On fuel: every character takes a byte at least.
unfoldable pub decode_from : ℕ → List ℕ → Option Text
decode_from fuel [] = some []
decode_from zero (b ∷ bs) = none
decode_from (suc fuel) (b ∷ bs) = elim (decode_char (b ∷ bs)) [
  | none ↦ none
  | some (c, rest) ↦ cons_to c (decode_from fuel rest)
]

unfoldable pub decode : List ℕ → Option Text
decode bs = decode_from (length bs) bs

-- The bytes of one character: what they decode to, and that only NUL has a zero byte.
record Encoded (c : ℕ) (bs : List ℕ) : Type 0 where
  back : (rest : List ℕ) → decode_char (bs ++ rest) ≡ some (c, rest)
  first : ℕ
  others : List ℕ
  nonempty : bs ≡ first ∷ others
  no_zero : c ≢ 0 → All (λ b. b ≢ 0) bs

one_byte : (c : ℕ) → c < 0x80 → Encoded c (c ∷ [])
unfolding decode_char
one_byte c h = record {
  back = λ rest. ground arith;
  first = c;
  others = [];
  nonempty = refl;
  no_zero = λ nz. omega arith;
}

two_bytes : (c : ℕ) → 0x80 ≤ c → c < 0x800 → Encoded c ((0xC0 + c / 64) ∷ (0x80 + c % 64) ∷ [])
unfolding decode_char
two_bytes c l h = record {
  back = λ rest. ground arith;
  first = 0xC0 + c / 64;
  others = (0x80 + c % 64) ∷ [];
  nonempty = refl;
  no_zero = λ nz. omega arith;
}

three_bytes :
    (c : ℕ)
    → 0x800 ≤ c
    → c < 0x10000
    → (0xD800 ≤ c → 0xDFFF < c)
    → Encoded c ((0xE0 + c / 4096) ∷ (0x80 + c / 64 % 64) ∷ (0x80 + c % 64) ∷ [])
unfolding decode_char
three_bytes c l h s =
    let n : (0xE0 + c / 4096 - 0xE0) * 4096
          + (0x80 + c / 64 % 64 - 0x80) * 64
          + (0x80 + c % 64 - 0x80)
        ≡ c =
      omega arith in
    record {
      back = λ rest. rw n (ground arith);
      first = 0xE0 + c / 4096;
      others = (0x80 + c / 64 % 64) ∷ (0x80 + c % 64) ∷ [];
      nonempty = refl;
      no_zero = λ nz. omega arith;
    }

four_bytes :
    (c : ℕ)
    → 0x10000 ≤ c
    → c < 0x110000
    → Encoded c
        ((0xF0 + c / 262144) ∷ (0x80 + c / 4096 % 64) ∷ (0x80 + c / 64 % 64) ∷ (0x80 + c % 64) ∷ [])
unfolding decode_char
four_bytes c l h =
    let n : (0xF0 + c / 262144 - 0xF0) * 262144
          + (0x80 + c / 4096 % 64 - 0x80) * 4096
          + (0x80 + c / 64 % 64 - 0x80) * 64
          + (0x80 + c % 64 - 0x80)
        ≡ c =
      omega arith in
    record {
      back = λ rest. rw n (ground arith);
      first = 0xF0 + c / 262144;
      others = (0x80 + c / 4096 % 64) ∷ (0x80 + c / 64 % 64) ∷ (0x80 + c % 64) ∷ [];
      nonempty = refl;
      no_zero = λ nz. omega arith;
    }

Encoded-at :
    (c : ℕ) (bs cs : List ℕ)
    → Encoded c bs
    → ◌≡◌ {A = Option (List ℕ)} (some bs) (some cs)
    → Encoded c cs
Encoded-at c bs cs h e = let same_bytes : bs ≡ cs = ground (arith, e) in rw same_bytes at h

encode_char-Encoded : (c : ℕ) (bs : List ℕ) → encode_char c ≡ some bs → Encoded c bs
unfolding encode_char
encode_char-Encoded c bs h = elim (Bool-cases (ltb c 0x80)) [
  | inl a ↦ Encoded-at c _ bs (one_byte c (ground arith)) (rw a at h)
  | inr a ↦ elim (Bool-cases (ltb c 0x800)) [
    | inl b ↦ Encoded-at c _ bs (two_bytes c (ground arith) (ground arith)) (rw (a, b) at h)
    | inr b ↦ elim (Bool-cases (ltb c 0x10000)) [
      | inl d ↦ elim (Bool-cases (leb 0xD800 c && leb c 0xDFFF)) [
        | inl s ↦ cc (rw (a, b, d, s) at h)
        | inr s ↦
            Encoded-at c _ bs (three_bytes c (ground arith) (ground arith) (λ k. ground arith))
              (rw (a, b, d, s) at h)
      ]
      | inr d ↦ elim (Bool-cases (ltb c 0x110000)) [
        | inl e ↦
            Encoded-at c _ bs (four_bytes c (ground arith) (ground arith)) (rw (a, b, d, e) at h)
        | inr e ↦ cc (rw (a, b, d, e) at h)
      ]
    ]
  ]
]

joined-eq-some :
    (o p : Option (List ℕ)) (bs : List ℕ)
    → joined o p ≡ some bs
    → (cs : List ℕ) × (ds : List ℕ) × (o ≡ some cs) × (p ≡ some ds) × (bs ≡ cs ++ ds)
joined-eq-some none p bs h = cc
joined-eq-some (some cs) none bs h = cc
joined-eq-some (some cs) (some ds) bs h = (cs, ds, refl, refl, ground (arith, h))

decode_from_step :
    (fuel c : ℕ) (bs rest : List ℕ)
    → Encoded c bs
    → decode_from (suc fuel) (bs ++ rest) ≡ cons_to c (decode_from fuel rest)
unfolding decode_from
decode_from_step fuel c bs rest h =
    let whole : bs ++ rest ≡ h.first ∷ (h.others ++ rest) =
      ap (λ (t : List ℕ). t ++ rest) h.nonempty in
    let reads : decode_char (h.first ∷ (h.others ++ rest)) ≡ some (c, rest) =
      rw (← whole) (h.back rest) in
    rw whole (rw (reads, decode_from) refl)

decode_from-encode :
    (t : Text) (fuel : ℕ) (bs : List ℕ)
    → encode t ≡ some bs
    → length bs ≤ fuel
    → decode_from fuel bs ≡ some t
unfolding encode
decode_from-encode [] fuel bs h f =
    let nothing : bs ≡ [] = ground (arith, h) in rw nothing (unfold decode_from in refl)
decode_from-encode (c ∷ cs) fuel bs h f =
    let (one, more, e1, e2, e) = joined-eq-some (encode_char c) (encode cs) bs h in
    let code = encode_char-Encoded c one e1 in
    step fuel one more code e f (decode_from-encode cs (fuel - 1) more e2)
  where
    step :
        (fuel : ℕ) (one more : List ℕ)
        → Encoded c one
        → bs ≡ one ++ more
        → length bs ≤ fuel
        → (length more ≤ fuel - 1 → decode_from (fuel - 1) more ≡ some cs)
        → decode_from fuel bs ≡ some (c ∷ cs)
    step zero one more code e f ih =
        absurd (omega (arith, ap length e, length-append one more, ap length code.nonempty))
    step (suc k) one more code e f ih =
        let pred : suc k - 1 ≡ k = omega arith in
        let rest : decode_from k more ≡ some cs =
          rw pred at
            (ih (omega (arith, ap length e, length-append one more, ap length code.nonempty))) in
        rw (e, decode_from_step k c one more code, rest) refl

-- Decoding an encoded text gives the text.
pub decode-encode : (t : Text) (bs : List ℕ) → encode t ≡ some bs → decode bs ≡ some t
unfolding decode
decode-encode t bs h = decode_from-encode t (length bs) bs h (omega arith)

-- A text without NUL has no zero byte.
pub encode-no_zero :
    (t : Text) (bs : List ℕ) → encode t ≡ some bs → All (λ c. c ≢ 0) t → All (λ b. b ≢ 0) bs
unfolding encode
encode-no_zero [] bs h nz = let nothing : bs ≡ [] = ground (arith, h) in rw nothing tt
encode-no_zero (c ∷ cs) bs h nz =
    let (one, more, e1, e2, e) = joined-eq-some (encode_char c) (encode cs) bs h in
    rw e (
      All-append (λ b. b ≢ 0) one more ((encode_char-Encoded c one e1).no_zero nz.0)
        (encode-no_zero cs more e2 nz.1))
