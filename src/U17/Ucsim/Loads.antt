-- ===== src/U17/Ucsim/Loads.antt =====
-- A reader of Intel HEX files, written from the format, and that it reads back what `ihex` writes.
use sc_adat_appliance.Base.{
  ℕ, zero, suc, ◌+◌, ◌*◌, ◌/◌, ◌%◌, ◌≤◌, ◌<◌, ◌≡◌, ◌≢◌, refl, sym, ap, ◌∙◌, inl, inr, Bool, true,
  false, ◌&&◌, Option, none, some, List, [], ◌∷◌, ◌++◌, ◌==◌, leb, if◌then◌else◌, Bool-cases,
  length, take, drop, length-append, length-take, length-drop, take_all, drop_all, take-append_le,
  take-append-drop, append-nil, All, All-append, All-take, All-drop, arith,
}
use sc_adat_appliance.Base.Bytes.{sum, sum-append, IsByte, AllBytes}
use sc_adat_appliance.Base.Hex.{
  hex2, hex_upper, read_hex, read_hex-hex_upper, hex_upper-ne, hex_upper-append,
}
use sc_adat_appliance.Base.Text.{Text}
use sc_adat_appliance.U17.Ucsim.{
  record_of, check_byte, record_line, record_lines, with_breaks, end_line, ihex,
}

-- The lines of a text, each ended by a line break.
abbrev prepend : ℕ → List Text → List Text
prepend c [] = (c ∷ []) ∷ []
prepend c (t ∷ ts) = (c ∷ t) ∷ ts

split_lines : Text → List Text
split_lines [] = []
split_lines (c ∷ cs) = if c == 10 then [] ∷ split_lines cs else prepend c (split_lines cs)

abbrev if_zero_sum : Option (List ℕ) → Option (List ℕ)
if_zero_sum none = none
if_zero_sum (some bytes) = if sum bytes % 256 == 0 then some bytes else none

-- The bytes of a record: digit pairs behind a colon, whose sum is 0 modulo 256.
record_bytes : Text → Option (List ℕ)
unfolding read_hex sum
record_bytes [] = none
record_bytes (c ∷ cs) = if c == 58 then if_zero_sum (read_hex cs) else none

abbrev followed : List ℕ → Option (List ℕ) → Option (List ℕ)
followed payload none = none
followed payload (some rest) = some (payload ++ rest)

-- A data record stands at the address that is next; an end record ends the file.
abbrev place : ℕ → List ℕ → Bool → (ℕ → Option (List ℕ)) → Option (List ℕ)
place next (count ∷ hi ∷ lo ∷ kind ∷ rest) last later =
    if kind == 1
    then (if last then some [] else none)
    else if kind == 0 && hi * 256 + lo == next && length rest == suc count
    then followed (take count rest) (later count)
    else none
place next _ last later = none

abbrev place_line : ℕ → Option (List ℕ) → Bool → (ℕ → Option (List ℕ)) → Option (List ℕ)
place_line next none last later = none
place_line next (some bytes) last later = place next bytes last later

abbrev is_empty : List Text → Bool
is_empty [] = true
is_empty (t ∷ ts) = false

load_lines : ℕ → List Text → Option (List ℕ)
unfolding record_bytes take
load_lines next [] = none
load_lines next (t ∷ ts) =
    place_line next (record_bytes t) (is_empty ts) (λ n. load_lines (next + n) ts)

-- The bytes that the file lays from address 0 on without a gap.
pub load_hex : Text → Option (List ℕ)
unfolding split_lines load_lines
load_hex text = load_lines 0 (split_lines text)

split_lines-append :
    (t rest : Text) → All (λ c. c ≢ 10) t → split_lines (t ++ 10 ∷ rest) ≡ t ∷ split_lines rest
unfolding split_lines
split_lines-append [] rest h = refl
split_lines-append (c ∷ t) rest h =
    let other : (c == 10) ≡ false = ground (arith, h.0) in
    rw (other, split_lines-append t rest h.1) refl

-- Lines without breaks come back.
split_lines-with_breaks :
    (t : Text) (ts : List Text)
    → All (All (λ c. c ≢ 10)) (t ∷ ts)
    → split_lines (with_breaks (t ∷ ts)) ≡ t ∷ ts
unfolding with_breaks
split_lines-with_breaks t [] h =
    split_lines-append t [] h.0 ∙ ap (λ (x : List Text). t ∷ x) (unfold split_lines in refl)
split_lines-with_breaks t (s ∷ ts) h =
    split_lines-append t (with_breaks (s ∷ ts)) h.0
    ∙ ap (λ (x : List Text). t ∷ x) (split_lines-with_breaks s ts h.1)

check_byte-lt : (bytes : List ℕ) → check_byte bytes < 256
unfolding check_byte
check_byte-lt bytes = omega arith

check_byte-sum : (bytes : List ℕ) → sum (bytes ++ check_byte bytes ∷ []) % 256 ≡ 0
check_byte-sum bytes = rw sum-append (unfold check_byte sum in omega arith)

record_bytes-record_line :
    (bytes : List ℕ)
    → AllBytes bytes
    → record_bytes (record_line bytes) ≡ some (bytes ++ check_byte bytes ∷ [])
unfolding record_bytes record_line hex_upper
record_bytes-record_line bytes h =
    let whole : hex_upper bytes ++ hex2 (check_byte bytes)
        ≡ hex_upper (bytes ++ check_byte bytes ∷ []) =
      sym (hex_upper-append bytes (check_byte bytes ∷ [])) in
    let bytes_all : AllBytes (bytes ++ check_byte bytes ∷ []) =
      All-append IsByte bytes (check_byte bytes ∷ []) h (check_byte-lt bytes, tt) in
    rw (whole, read_hex-hex_upper (bytes ++ check_byte bytes ∷ []) bytes_all, check_byte-sum bytes)
      refl

place-record_of :
    (address : ℕ) (chunk : List ℕ) (check : ℕ) (last : Bool) (later : ℕ → Option (List ℕ))
    → address < 0x10000
    → place address (record_of address chunk ++ check ∷ []) last later
      ≡ followed chunk (later (length chunk))
unfolding record_of
place-record_of address chunk check last later h =
    let here : (address / 256 % 256 * 256 + address % 256 == address) ≡ true = ground arith in
    let size : (length (chunk ++ check ∷ []) == suc (length chunk)) ≡ true =
      ground (arith, length-append chunk (check ∷ [])) in
    let payload : take (length chunk) (chunk ++ check ∷ []) ≡ chunk =
      take-append_le (length chunk) chunk (check ∷ []) (omega arith)
      ∙ take_all (length chunk) chunk (omega arith) in
    rw (here, size, payload) refl

AllBytes-record_of :
    (address : ℕ) (chunk : List ℕ)
    → length chunk ≤ 16
    → AllBytes chunk
    → AllBytes (record_of address chunk)
unfolding record_of
AllBytes-record_of address chunk h k = (omega arith, (omega arith, (omega arith, (omega arith, k))))

load_lines-end : (next : ℕ) → load_lines next (end_line ∷ []) ≡ some []
unfolding load_lines
load_lines-end next = refl

load_lines-record :
    (next : ℕ) (chunk : List ℕ) (ts : List Text)
    → next < 0x10000
    → length chunk ≤ 16
    → AllBytes chunk
    → load_lines next (record_line (record_of next chunk) ∷ ts)
      ≡ followed chunk (load_lines (next + length chunk) ts)
unfolding load_lines
load_lines-record next chunk ts lt short bytes =
    let line =
      record_bytes-record_line (record_of next chunk) (AllBytes-record_of next chunk short bytes) in
    rw (load_lines, line)
      (place-record_of next chunk (check_byte (record_of next chunk)) (is_empty ts)
        (λ n. load_lines (next + n) ts) lt)

load_lines-record_lines :
    (fuel next : ℕ) (bytes : List ℕ)
    → length bytes ≤ fuel
    → next + length bytes ≤ 0x10000
    → AllBytes bytes
    → load_lines next (record_lines fuel next bytes ++ end_line ∷ []) ≡ some bytes
unfolding record_lines
load_lines-record_lines zero next [] f le h = load_lines-end next
load_lines-record_lines (suc fuel) next [] f le h = load_lines-end next
load_lines-record_lines zero next (b ∷ bs) f le h = absurd (omega arith)
load_lines-record_lines (suc fuel) next (b ∷ bs) f le h =
    let bytes = b ∷ bs in
    let chunk = take 16 bytes in
    let rest = drop 16 bytes in
    let size = length-take 16 bytes in
    let left = length-drop 16 bytes in
    let lines = record_lines fuel (next + 16) rest ++ end_line ∷ [] in
    let first =
      load_lines-record next chunk lines (omega arith) (omega (arith, size))
        (All-take IsByte 16 bytes h) in
    let joined : chunk ++ rest ≡ bytes = take-append-drop 16 bytes in
    elim (Bool-cases (leb 16 (length bytes))) [
      | inl long ↦
          let sixteen : length chunk ≡ 16 = ground (arith, size) in
          let ih =
            load_lines-record_lines fuel (next + 16) rest (omega (arith, left))
              (ground (arith, left)) (All-drop IsByte 16 bytes h) in
          first ∙ rw (sixteen, ih) (ap (λ (x : List ℕ). some x) joined)
      | inr short ↦
          let none_left : rest ≡ [] = drop_all 16 bytes (ground arith) in
          let all : chunk ≡ bytes = take_all 16 bytes (ground arith) in
          first ∙ rw (none_left, all) (last fuel (next + 16) (next + length bytes) bytes)
    ]
  where
    last :
        (fuel address next : ℕ) (bytes : List ℕ)
        → followed bytes (load_lines next (record_lines fuel address [] ++ end_line ∷ []))
          ≡ some bytes
    last zero address next bytes =
        rw (load_lines-end next) (ap (λ (x : List ℕ). some x) (append-nil bytes))
    last (suc fuel) address next bytes =
        rw (load_lines-end next) (ap (λ (x : List ℕ). some x) (append-nil bytes))

abbrev Unbroken : Text → Type 0
Unbroken = All (λ c. c ≢ 10)

record_line-Unbroken : (bytes : List ℕ) → Unbroken (record_line bytes)
unfolding record_line hex_upper
record_line-Unbroken bytes = (
  omega arith,
  All-append (λ c. c ≢ 10) (hex_upper bytes) (hex2 (check_byte bytes)) (hex_upper-ne bytes)
      (hex_upper-ne (check_byte bytes ∷ [])),
)

record_lines-Unbroken :
    (fuel address : ℕ) (bytes : List ℕ)
    → All Unbroken (record_lines fuel address bytes ++ end_line ∷ [])
unfolding record_lines
record_lines-Unbroken zero address [] = omega arith
record_lines-Unbroken (suc fuel) address [] = omega arith
record_lines-Unbroken zero address (b ∷ bs) = omega arith
record_lines-Unbroken (suc fuel) address (b ∷ bs) = (
  record_line-Unbroken (record_of address (take 16 (b ∷ bs))),
  record_lines-Unbroken fuel (address + 16) (drop 16 (b ∷ bs)),
)

split_lines-lines :
    (lines : List Text)
    → All Unbroken (lines ++ end_line ∷ [])
    → split_lines (with_breaks (lines ++ end_line ∷ [])) ≡ lines ++ end_line ∷ []
split_lines-lines [] h = split_lines-with_breaks end_line [] h
split_lines-lines (t ∷ ts) h = split_lines-with_breaks t (ts ++ end_line ∷ []) h

-- The file that `ihex` writes for up to 0x10000 bytes is an Intel HEX file: each record has its
-- checksum and stands at the next address, and the reader lays the same bytes.
pub load_hex-ihex :
    (bytes : List ℕ) → length bytes ≤ 0x10000 → AllBytes bytes → load_hex (ihex bytes) ≡ some bytes
unfolding load_hex ihex
load_hex-ihex bytes le h =
    ap (load_lines 0) (
      split_lines-lines (record_lines (length bytes) 0 bytes)
        (record_lines-Unbroken (length bytes) 0 bytes))
    ∙ load_lines-record_lines (length bytes) 0 bytes (omega arith) (omega arith) h
