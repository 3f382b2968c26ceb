-- ===== src/Nvram/Tests.antt =====
-- A few bytes with two regions, and the theorem on them.
use sc_adat_appliance.Base.{ℕ, ◌≡◌, refl, true, List, [], ◌∷◌, get_elem?, slice, take, drop, All}
use sc_adat_appliance.Base.Text.{codes}
use sc_adat_appliance.Nvram.{
  Region, scan, nonzero_regions, printable_runs, application_residue, is_nonzero,
}
use sc_adat_appliance.Nvram.Regions.{lies_in, is_in_at, Measures, nonzero_regions-is_nonzero}

abbrev bytes : List ℕ
bytes = 0 ∷ 0 ∷ b'U' ∷ b'1' ∷ b'7' ∷ 0 ∷ 0 ∷ 0xFF ∷ []

abbrev region : ℕ → ℕ → ℕ → Region
region start end length = record {
  start = start;
  end = end;
  length = length;
  kind = application_residue;
  is_certain = true;
}

two_regions : nonzero_regions bytes ≡ region 2 4 3 ∷ region 7 7 1 ∷ []
unfolding nonzero_regions scan
two_regions = refl

one_text : printable_runs bytes 3 ≡ (2, codes "U17") ∷ []
unfolding printable_runs scan slice take drop
one_text = refl

nonzero_regions-is_nonzero_example :
    ((k : ℕ) → lies_in k (nonzero_regions bytes) ≡ is_in_at is_nonzero (get_elem? bytes k))
    × All Measures (nonzero_regions bytes)
nonzero_regions-is_nonzero_example = nonzero_regions-is_nonzero bytes
