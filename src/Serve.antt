-- ===== src/Serve.antt =====
-- mixer/mixerctl.py: the reply addresses of the service, and in Serve/Generator the test generator
-- that `serve` keeps.
pub mod Generator
pub mod Guard
pub mod Reply
mod Tests
use sc_adat_appliance.Base.{
  ℕ, zero, suc, Bool, true, false, ◌&&◌, Option, none, some, List, [], ◌∷◌, length, leb, ◌==◌,
  if◌then◌else◌,
}
use sc_adat_appliance.Base.Int.{ℤ, pos, negsuc}
use sc_adat_appliance.Base.Result.{Result, ok, err}
use sc_adat_appliance.Base.Text.{Text}
use sc_adat_appliance.Osc.{Arg, int, flt, str, Floats}

-- A host and a port.
abbrev pub Address : Type 0
Address = Text × ℕ

-- The ValueError of a port that is no integer from 1 to 65535.
pub data PortError : Type 0 where
  bad_port : PortError

abbrev pub in_ports : Text → ℤ → Result PortError Address
in_ports host (negsuc n) = err bad_port
in_ports host (pos n) = if leb 1 n && leb n 65535 then ok (host, n) else err bad_port

abbrev pub last_of {ℓ} : {A : Type ℓ} → A → List A → A
last_of a [] = a
last_of a (b ∷ bs) = last_of b bs

-- `integer_of` is the integer that a finite float without a fraction is.
module _ (floats : Floats) (integer_of : floats.F → Option ℤ) where
  open floats use {F, float_of}

  abbrev pub with_integer : Text → Option ℤ → Result PortError Address
  with_integer host none = err bad_port
  with_integer host (some n) = in_ports host n

  abbrev pub with_number : Text → Option F → Result PortError Address
  with_number host none = err bad_port
  with_number host (some x) = with_integer host (integer_of x)

  unfoldable pub reply_destination : Address → Option (Arg F) → Result PortError Address
  reply_destination source none = ok source
  reply_destination source (some (str t)) = err bad_port
  reply_destination source (some (int n)) = with_number source.0 (float_of (int n))
  reply_destination source (some (flt x)) = with_number source.0 (float_of (flt x))

  abbrev pub or_source : Address → Result PortError Address → Address × Option PortError
  or_source source (ok destination) = (destination, none)
  or_source source (err e) = (source, some e)

  -- `values[-1]` of values that are there.
  abbrev pub last_value : List (Arg F) → Option (Arg F)
  last_value [] = none
  last_value (v ∷ vs) = some (last_of v vs)

  unfoldable pub request_destination : Address → List (Arg F) → ℕ → ℕ → Address × Option PortError
  request_destination source values expected_without_port expected_with_port =
      if length values == expected_without_port
      then (source, none)
      else if length values == expected_with_port
      then or_source source (reply_destination source (last_value values))
      else (source, none)
