-- ===== src/Edges/Tests.antt =====
-- A short capture with an overflow, and the theorem on it.
use sc_adat_appliance.Base.{
  ℕ, ◌≡◌, refl, List, [], ◌∷◌, ◌++◌, arith, take, drop, All, zero, suc, ◌≢◌, false, true,
}
use sc_adat_appliance.Base.Bytes.{same, same_iff}
use sc_adat_appliance.Base.Result.{ok}
use sc_adat_appliance.Base.Text.{codes}
use sc_adat_appliance.Edges.{Capture, parse_capture}
use sc_adat_appliance.Edges.Frames.{Frame, start_at, edge_after, overflow_of, stop_at, stream, Fits}
use sc_adat_appliance.Edges.Printed.{header, sent, NoMagic, parse_capture-printed}

abbrev frames : List Frame
frames =
    start_at 7 1 ∷ edge_after 1000 0 ∷ overflow_of 3 1200 ∷ edge_after 300 1 ∷ stop_at 1500 3 ∷ []

abbrev ready : List ℕ
ready = 0xA5 ∷ 1 ∷ []

other_bytes : (bs : List ℕ) → same bs (codes "DYAXEDG1") ≡ false → bs ≢ codes "DYAXEDG1"
other_bytes bs h e = cc (h, (same_iff bs (codes "DYAXEDG1")).1 e)

no_magic : NoMagic ready (header 2000000 1 0 0 0 ++ stream frames)
unfolding take drop same
no_magic zero h = other_bytes _ refl
no_magic (suc zero) h = other_bytes _ refl
no_magic (suc (suc i)) h = absurd (omega (arith, h))

fitting : All Fits frames
fitting = (
  omega arith,
  (
    (omega arith, omega arith),
    ((omega arith, omega arith), ((omega arith, omega arith), ((omega arith, omega arith), tt))),
  ),
)

parse_capture-printed_example :
    (c : Capture) × (parse_capture (sent ready 2000000 1 0 0 0 frames) ≡ ok c)
    × (c.timer_hz ≡ 2000000)
    × (c.edges ≡ (1000, 0) ∷ (1300, 1) ∷ [])
    × (c.initial_level ≡ 1)
    × (c.overflow ≡ 3)
    × (c.stopped ≡ true)
parse_capture-printed_example =
    parse_capture-printed ready 2000000 1 0 0 0 frames no_magic (omega arith) fitting
