-- ===== src/Osc/Patterns.antt =====
-- A concrete model of `struct` for the tests of mixer/mixerctl.py: floats are 32-bit patterns.
use sc_adat_appliance.Base.{
  ℕ, ◌^◌, ◌≡◌, refl, Option, none, some, List, [], arith, length, Bool-cases, inl, inr, ltb,
  if◌then◌else◌,
}
use sc_adat_appliance.Base.Bytes.{from_big, to_big, from_big-to_big, length-to_big}
use sc_adat_appliance.Base.Text.{Text}
use sc_adat_appliance.Base.Int.{ℤ}
use sc_adat_appliance.Osc.{Arg, int, flt, str, Floats}

-- Floats that are their own 32-bit patterns.
abbrev pub pack_pattern : ℕ → Option (List ℕ)
pack_pattern n = if ltb n (2 ^ 32) then some (to_big 4 n) else none

abbrev pub pattern_of : Arg ℕ → Option ℕ
pattern_of (flt x) = some x
pattern_of other = none

abbrev pub whole_of : Arg ℕ → Option ℤ
whole_of (int n) = some n
whole_of other = none

abbrev pub text_in : Arg ℕ → Text
text_in (str t) = t
text_in other = []

pub unpack-pack_pattern :
    (x : ℕ) (bs : List ℕ) → pack_pattern x ≡ some bs → (length bs ≡ 4) × (from_big 0 bs ≡ x)
unpack-pack_pattern x bs h = elim (Bool-cases (ltb x (2 ^ 32))) [
  | inl e ↦
      let is_big : to_big 4 x ≡ bs = ground (arith, rw e at h) in
      rw (← is_big, length-to_big 4 x, from_big-to_big 4 x (ground arith)) (refl, refl)
  | inr e ↦ cc (rw e at h)
]

abbrev pub patterns : Floats
patterns = record {
  F = ℕ;
  single = λ x. x;
  pack_single = pack_pattern;
  unpack_single = from_big 0;
  int_of = whole_of;
  float_of = pattern_of;
  text_of = text_in;
  unpack-pack = unpack-pack_pattern;
  int_of-int = λ n. refl;
  float_of-flt = λ x. refl;
  text_of-str = λ t. refl;
}
