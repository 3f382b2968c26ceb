-- ===== src/Serve/Reply.antt =====
-- A reply goes to the host that has asked.
use sc_adat_appliance.Base.{
  ℕ, ◌≤◌, ◌≡◌, refl, ◌⊎◌, inl, inr, ◌&&◌, Option, none, some, List, arith, length, leb, ◌==◌,
  if_both, Bool-cases,
}
use sc_adat_appliance.Base.Int.{ℤ, pos, negsuc}
use sc_adat_appliance.Osc.{Arg, int, flt, str, Floats}
use sc_adat_appliance.Serve.{
  Address, PortError, in_ports, with_integer, with_number, reply_destination, or_source, last_value,
  request_destination,
}

-- The sender itself, where there is an error, and else its host with a port that there is.
abbrev pub Answers : Address → Address × Option PortError → Type 0
Answers source (destination, none) =
    (destination ≡ source)
    ⊎ ((destination.0 ≡ source.0) × ((1 ≤ destination.1) × (destination.1 ≤ 65535)))
Answers source (destination, some e) = destination ≡ source

in_ports-Answers :
    (floats : Floats) (integer_of : floats.F → Option ℤ) (source : Address) (z : ℤ)
    → Answers source (or_source floats integer_of source (in_ports source.0 z))
in_ports-Answers floats integer_of source (negsuc n) = refl
in_ports-Answers floats integer_of source (pos n) = elim (Bool-cases (leb 1 n && leb n 65535)) [
  | inl e ↦ rw e (inr (refl, (ground (arith, e), ground (arith, e))))
  | inr e ↦ rw e refl
]

module _ (floats : Floats) (integer_of : floats.F → Option ℤ) (source : Address) where
  open floats use {F, float_of}

  with_number-Answers :
      (o : Option F)
      → Answers source
          (or_source floats integer_of source (with_number floats integer_of source.0 o))
  with_number-Answers none = refl
  with_number-Answers (some x) = go (integer_of x)
    where
      go :
          (o : Option ℤ)
          → Answers source
              (or_source floats integer_of source (with_integer floats integer_of source.0 o))
      go none = refl
      go (some z) = in_ports-Answers floats integer_of source z

  reply_destination-Answers :
      (port : Option (Arg F))
      → Answers source
          (or_source floats integer_of source (reply_destination floats integer_of source port))
  unfolding reply_destination
  reply_destination-Answers none = inl refl
  reply_destination-Answers (some (str t)) = refl
  reply_destination-Answers (some (int n)) = with_number-Answers (float_of (int n))
  reply_destination-Answers (some (flt x)) = with_number-Answers (float_of (flt x))

  -- Whatever values a request has, the answer goes to the sender, or to its host at a port from 1
  -- to 65535; where the port is refused, the error goes to the sender.
  pub request_destination-Answers :
      (values : List (Arg F)) (without_port with_port : ℕ)
      → Answers source (request_destination floats integer_of source values without_port with_port)
  unfolding request_destination
  request_destination-Answers values without_port with_port =
      if_both (Answers source) (length values == without_port) _ _ (inl refl) (
        if_both (Answers source) (length values == with_port) _ _
          (reply_destination-Answers (last_value floats integer_of values)) (inl refl))
