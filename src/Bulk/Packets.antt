-- ===== src/Bulk/Packets.antt =====
-- The packets of a get-all, as the client parses them.
use sc_adat_appliance.Base.{
  ℕ, ◌+◌, ◌<◌, zero, suc, ◌≡◌, refl, ap, Bool, true, not, ◌&&◌, ◌==◌, some, List, [], ◌∷◌, ◌++◌,
  arith, get_elem?, All,
}
use sc_adat_appliance.Base.Int.{pos}
use sc_adat_appliance.Base.Result.{ok}
use sc_adat_appliance.Base.Sealed.{bind-eq-ok}
use sc_adat_appliance.Base.Text.{Text, codes}
use sc_adat_appliance.Osc.{Floats, parse_packet}
use sc_adat_appliance.Osc.Strings.{NulFree}
use sc_adat_appliance.Osc.RoundTrip.{as_int, as_float, as_text, AllTyped, parse_packet-packet}
use sc_adat_appliance.Bulk.{
  Value, number, text, pair_types, pair_values, chunk, part, complete, packed, chunks_from,
}
use sc_adat_appliance.Bulk.Client.{as_message}
use sc_adat_appliance.Bulk.Held.{arrived}

abbrev pub has_no_nul : Text → Bool
has_no_nul [] = true
has_no_nul (c ∷ cs) = not (c == 0) && has_no_nul cs

pub nul_free : (t : Text) → has_no_nul t ≡ true → NulFree t
nul_free [] h = tt
nul_free (c ∷ cs) h = (ground (arith, h), nul_free cs (ground (arith, h)))

module _ (floats : Floats) where
  open floats use {F}

  -- The texts of an item have no NUL.
  abbrev pub IsNulFree : Text × Value F → Type 0
  IsNulFree (k, number x) = NulFree k
  IsNulFree (k, text t) = NulFree k × NulFree t

  pair_types-NulFree : (items : List (Text × Value F)) → NulFree (pair_types items)
  unfolding pair_types
  pair_types-NulFree [] = tt
  pair_types-NulFree ((k, number x) ∷ rest) = (cc, (cc, pair_types-NulFree rest))
  pair_types-NulFree ((k, text t) ∷ rest) = (cc, (cc, pair_types-NulFree rest))

  pairs-AllTyped :
      (items : List (Text × Value F))
      → All IsNulFree items
      → AllTyped floats (pair_types items) (pair_values items)
  unfolding pair_types pair_values
  pairs-AllTyped [] h = tt
  pairs-AllTyped ((k, number x) ∷ rest) h =
      (as_text k refl h.0, (as_float x refl, pairs-AllTyped rest h.1))
  pairs-AllTyped ((k, text t) ∷ rest) h =
      (as_text k refl h.0.0, (as_text t refl h.0.1, pairs-AllTyped rest h.1))

  pub chunk-parsed :
      (snapshot : Text) (index total : ℕ) (items : List (Text × Value F)) (bytes : List ℕ)
      → NulFree snapshot
      → All IsNulFree items
      → packed floats (chunk snapshot index total items) ≡ ok bytes
      → as_message (parse_packet floats bytes)
        ≡ ok (arrived floats (chunk snapshot index total items))
  chunk-parsed snapshot index total items bytes free fine h = ap as_message (
      parse_packet-packet floats (codes "/mixer/state-chunk") b',' (codes "sii" ++ pair_types items)
        _ bytes (nul_free (codes "/mixer/state-chunk") refl)
        (cc, (cc, (cc, (cc, pair_types-NulFree items))))
        (
          as_text snapshot refl free,
          (as_int (pos index) refl, (as_int (pos total) refl, pairs-AllTyped items fine)),
        )
        h)

  pub complete-parsed :
      (snapshot : Text) (total entries : ℕ) (bytes : List ℕ)
      → NulFree snapshot
      → packed floats (complete snapshot total entries) ≡ ok bytes
      → as_message (parse_packet floats bytes)
        ≡ ok (arrived floats (complete snapshot total entries))
  complete-parsed snapshot total entries bytes free h = ap as_message (
      parse_packet-packet floats (codes "/mixer/state-complete") b',' (codes "sii") _ bytes
        (nul_free (codes "/mixer/state-complete") refl) (cc, (cc, (cc, (cc, tt))))
        (as_text snapshot refl free, (as_int (pos total) refl, (as_int (pos entries) refl, tt))) h)

  -- Each packet of the loop is that of its chunk.
  pub chunks_from-packed :
      (snapshot : Text) (items : List (Text × Value F)) (total rounds index i : ℕ)
      (packets : List (List ℕ))
      → chunks_from floats 8 snapshot items total rounds index ≡ ok packets
      → i < rounds
      → (bytes : List ℕ) × (get_elem? packets i ≡ some bytes)
        × (packed floats (chunk snapshot (index + i) total (part 8 items (index + i))) ≡ ok bytes)
  unfolding chunks_from get_elem?
  chunks_from-packed snapshot items total zero index i packets h below =
      absurd (omega (arith, below))
  chunks_from-packed snapshot items total (suc rounds) index zero packets h below =
      let (one, first, later) = bind-eq-ok _ _ h in
      let (more, rest, done) = bind-eq-ok _ _ later in
      let eq : one ∷ more ≡ packets = ground (arith, done) in
      let start : index + 0 ≡ index = omega arith in (one, rw (← eq) refl, rw start first)
  chunks_from-packed snapshot items total (suc rounds) index (suc k) packets h below =
      let (one, first, later) = bind-eq-ok _ _ h in
      let (more, rest, done) = bind-eq-ok _ _ later in
      let eq : one ∷ more ≡ packets = ground (arith, done) in
      let next : index + suc k ≡ suc index + k = omega arith in
      let (bytes, there, made) =
        chunks_from-packed snapshot items total rounds (suc index) k more rest
          (omega (arith, below)) in
      (bytes, rw (← eq) there, rw next made)
