-- ===== src/SourceMap/Atomic.antt =====
-- `AtomicSourceMap`: the working map is replaced only by a map that was accepted as a whole.
use sc_adat_appliance.Base.{◌≡◌, refl, subst, List, [], ◌∷◌, arith}
use sc_adat_appliance.Base.Text.{Text}
use sc_adat_appliance.Base.Result.{ok, err}
use sc_adat_appliance.Base.Sealed.{◌>>=◌, bind-eq-ok}
use sc_adat_appliance.SourceMap.{Source, Entries, Checked, validate_source_map}
use sc_adat_appliance.SourceMap.Sound.{IsMap, validate_source_map-IsMap}

pub record AtomicSourceMap : Type 0 where
  pub groups : List Text
  pub version : Text
  pub sources : List Source

-- `__init__`
unfoldable pub make : Entries → List Text → Text → Checked AtomicSourceMap
make entries groups version = validate_source_map entries groups version >>= λ sources.
    ok (record { groups = groups; version = version; sources = sources })

abbrev pub accept :
    AtomicSourceMap → Checked (List Source) → Checked (List Source) × AtomicSourceMap
accept m (ok proposed) = (ok proposed, record m { sources = proposed })
accept m (err e) = (err e, m)

-- What the caller gets, and the object after the call.
unfoldable pub replace : Entries → AtomicSourceMap → Checked (List Source) × AtomicSourceMap
replace entries m = accept m (validate_source_map entries m.groups m.version)

-- A caller that goes on after a refusal.
unfoldable pub replace_all : List Entries → AtomicSourceMap → AtomicSourceMap
replace_all [] m = m
replace_all (e ∷ es) m = replace_all es (replace e m).1

-- What a replacement does, by what it returns.
abbrev pub Replaced : AtomicSourceMap → Checked (List Source) × AtomicSourceMap → Type 0
Replaced m (ok proposed, m') = (m' ≡ record m { sources = proposed }) × IsMap m.groups proposed
Replaced m (err e, m') = m' ≡ m

-- A replacement returns a valid map that it then holds, or raises and changes nothing.
pub replace-Replaced : (entries : Entries) (m : AtomicSourceMap) → Replaced m (replace entries m)
unfolding replace
replace-Replaced entries m =
    go (validate_source_map entries m.groups m.version)
      (validate_source_map-IsMap entries m.groups m.version)
  where
    go :
        (out : Checked (List Source))
        → ((ss : List Source) → out ≡ ok ss → IsMap m.groups ss)
        → Replaced m (accept m out)
    go (ok ss) valid = (refl, valid ss refl)
    go (err e) valid = refl

Replaced-IsMap :
    (m : AtomicSourceMap) (r : Checked (List Source)) (m' : AtomicSourceMap)
    → Replaced m (r, m')
    → IsMap m.groups m.sources
    → IsMap m'.groups m'.sources × (m'.groups ≡ m.groups)
Replaced-IsMap m (ok ss) m' h valid = rw h.0 (h.1, refl)
Replaced-IsMap m (err e) m' h valid = rw h (valid, refl)

replace_all-IsMap :
    (es : List Entries) (m : AtomicSourceMap)
    → IsMap m.groups m.sources
    → IsMap m.groups (replace_all es m).sources
unfolding replace_all
replace_all-IsMap [] m h = h
replace_all-IsMap (e ∷ es) m h =
    let (valid, kept) = Replaced-IsMap m (replace e m).0 (replace e m).1 (replace-Replaced e m) h in
    rw kept at (replace_all-IsMap es (replace e m).1 valid)

-- From its construction on, whatever proposals follow, valid or not, the object holds a valid map
-- over the groups that it was made with.
pub held-IsMap :
    (entries : Entries) (groups : List Text) (version : Text) (m : AtomicSourceMap)
    (es : List Entries)
    → make entries groups version ≡ ok m
    → IsMap groups (replace_all es m).sources
unfolding make
held-IsMap entries groups version m es h =
    let (ss, e, made) = bind-eq-ok _ _ h in
    let fresh : AtomicSourceMap = record { groups = groups; version = version; sources = ss } in
    let is_m : fresh ≡ m = ground (arith, made) in
    subst (λ n. IsMap groups (replace_all es n).sources) is_m
      (replace_all-IsMap es fresh (validate_source_map-IsMap entries groups version ss e))
