-- ===== src/Osc.antt =====
-- The OSC codec of mixer/mixerctl.py: `osc_string`, `packet`, `osc_read` and `parse_packet`.
pub mod Strings
pub mod RoundTrip
pub mod Patterns
mod Tests
use sc_adat_appliance.Base.{
  ℕ, ◌+◌, ◌-◌, ◌*◌, ◌/◌, ◌%◌, ◌^◌, zero, suc, ◌≡◌, not, Option, none, some, List, [], ◌∷◌, ◌++◌,
  length, drop, replicate, slice, ltb, leb, ◌==◌, if◌then◌else◌,
}
use sc_adat_appliance.Base.Bytes.{from_big, to_big}
use sc_adat_appliance.Base.Text.{Text}
use sc_adat_appliance.Base.Utf8.{encode, decode}
use sc_adat_appliance.Base.Int.{ℤ, pos, negsuc}
use sc_adat_appliance.Base.Result.{Result, ok, err}
use sc_adat_appliance.Base.Sealed.{◌>>=◌}

-- A Python value that is an OSC argument, over a type of floats.
pub data Arg (F : Type 0) : Type 0 where
  int : ℤ → Arg F
  flt : F → Arg F
  str : Text → Arg F

-- Python's floats, and what `struct` does with them: `pack_single` is `struct.pack(">f", x)`,
-- `none` where it raises, and `single` the nearest float32. The conversions `int(value)`,
-- `float(value)` and `str(value)` leave a value of their own type alone.
pub record Floats : Type 1 where
  pub F : Type 0
  pub single : F → F
  pub pack_single : F → Option (List ℕ)
  pub unpack_single : List ℕ → F
  pub int_of : Arg F → Option ℤ
  pub float_of : Arg F → Option F
  pub text_of : Arg F → Text
  pub unpack-pack :
      (x : F) (bs : List ℕ)
      → pack_single x ≡ some bs
      → (length bs ≡ 4) × (unpack_single bs ≡ single x)
  pub int_of-int : (n : ℤ) → int_of (int n) ≡ some n
  pub float_of-flt : (x : F) → float_of (flt x) ≡ some x
  pub text_of-str : (t : Text) → text_of (str t) ≡ t

pub data OscError : Type 0 where
  unicode_error struct_error conversion_error no_terminator : OscError
  unsupported_type : ℕ → OscError

abbrev pub or_else {ℓ} : {A : Type ℓ} → OscError → Option A → Result OscError A
or_else e none = err e
or_else e (some a) = ok a

-- `raw + b"\0" * ((4 - len(raw) % 4) % 4)`
unfoldable pub pad : List ℕ → List ℕ
pad raw = raw ++ replicate ((4 - length raw % 4) % 4) 0

unfoldable pub osc_string : Text → Result OscError (List ℕ)
osc_string value = or_else unicode_error (encode value) >>= λ bytes. ok (pad (bytes ++ 0 ∷ []))

-- `struct.pack(">i", n)`: two's complement in four bytes, or an error out of range.
unfoldable pub pack_int : ℤ → Option (List ℕ)
pack_int (pos n) = if ltb n (2 ^ 31) then some (to_big 4 n) else none
pack_int (negsuc n) = if ltb n (2 ^ 31) then some (to_big 4 (2 ^ 32 - 1 - n)) else none

-- `struct.unpack(">i", bs)[0]` of four bytes.
unfoldable pub unpack_int : List ℕ → ℤ
unpack_int bs = let n = from_big 0 bs in if ltb n (2 ^ 31) then pos n else negsuc (2 ^ 32 - 1 - n)

-- The first zero byte of a list, as `data.index(b"\0", pos)` finds it from `pos` on.
unfoldable pub index_zero : List ℕ → Option ℕ
index_zero [] = none
index_zero (b ∷ bs) =
    if b == 0 then some 0 else elim (index_zero bs) [ none ↦ none | some k ↦ some (suc k) ]

-- The text at a position, and the next aligned position: `(end + 4) & ~3`.
unfoldable pub osc_read : List ℕ → ℕ → Result OscError (Text × ℕ)
osc_read bytes position = or_else no_terminator (index_zero (drop position bytes)) >>= λ k.
    or_else unicode_error (decode (slice position (position + k) bytes)) >>= λ text.
    ok (text, (position + k + 4) / 4 * 4)

-- `data[pos:pos+4]`, which `struct.unpack` wants whole.
unfoldable pub word : List ℕ → ℕ → Result OscError (List ℕ)
word bytes position =
    if length (slice position (position + 4) bytes) == 4
    then ok (slice position (position + 4) bytes)
    else err struct_error

module _ (floats : Floats) where
  open floats use {F, pack_single, unpack_single, int_of, float_of, text_of}

  -- One round of the loop in `packet`.
  unfoldable pub pack_value : ℕ → Arg F → Result OscError (List ℕ)
  pack_value typ value =
      if typ == b'i'
      then (or_else conversion_error (int_of value) >>= λ n. or_else struct_error (pack_int n))
      else if typ == b'f'
      then (or_else conversion_error (float_of value) >>= λ x. or_else struct_error (pack_single x))
      else if typ == b's'
      then osc_string (text_of value)
      else err (unsupported_type typ)

  -- `for typ, value in zip(types[1:], values)`
  unfoldable pub pack_values : Text → List (Arg F) → Result OscError (List ℕ)
  pack_values [] values = ok []
  pack_values (typ ∷ typs) [] = ok []
  pack_values (typ ∷ typs) (value ∷ values) =
      pack_value typ value >>= λ one. pack_values typs values >>= λ more. ok (one ++ more)

  unfoldable pub packet : Text → Text → List (Arg F) → Result OscError (List ℕ)
  packet path types values = osc_string path >>= λ head. osc_string types >>= λ tags.
      pack_values (drop 1 types) values >>= λ body. ok (head ++ (tags ++ body))

  -- One round of the loop in `parse_packet`; `none` is its `break`.
  unfoldable pub parse_value : List ℕ → ℕ → ℕ → Result OscError (Option (Arg F × ℕ))
  parse_value bytes position typ =
      if typ == b'i'
      then (word bytes position >>= λ w. ok (some (int (unpack_int w), position + 4)))
      else if typ == b'f'
      then (word bytes position >>= λ w. ok (some (flt (unpack_single w), position + 4)))
      else if typ == b's'
      then (osc_read bytes position >>= λ read. ok (some (str read.0, read.1)))
      else ok none

  unfoldable pub parse_values : List ℕ → ℕ → Text → Result OscError (List (Arg F))
  parse_values bytes position [] = ok []
  parse_values bytes position (typ ∷ typs) = parse_value bytes position typ >>= elim [
    | none ↦ ok []
    | some (value, next) ↦ parse_values bytes next typs >>= λ values. ok (value ∷ values)
  ]

  unfoldable pub parse_packet : List ℕ → Result OscError (Text × Text × List (Arg F))
  parse_packet bytes = osc_read bytes 0 >>= λ path. osc_read bytes path.1 >>= λ types.
      parse_values bytes types.1 (drop 1 types.0) >>= λ values. ok (path.0, types.0, values)
