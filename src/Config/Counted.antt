-- ===== src/Config/Counted.antt =====
-- An accepted configuration has as many sources as it counts.
use sc_adat_appliance.Base.{ℕ, zero, suc, ◌≡◌, ap, sym, ◌∙◌, List, [], ◌∷◌, arith, length}
use sc_adat_appliance.Base.Result.{Result, ok}
use sc_adat_appliance.Base.Sealed.{bind-eq-ok, guard-eq-ok}
use sc_adat_appliance.Base.Text.{Text}
use sc_adat_appliance.SourceMap
use sc_adat_appliance.SourceMap.{
  Source, Raw, check_entry, check_entries, check_cover, validate_source_map,
}
use sc_adat_appliance.Config.{Values, ConfigError, legacy_from, entries_from, check_keys}

pub length-entries_from :
    (values : Values) (n index : ℕ) (raws : List Raw)
    → entries_from values n index ≡ ok raws
    → length raws ≡ n
unfolding entries_from
length-entries_from values zero index raws h = ground (arith, h)
length-entries_from values (suc n) index raws h =
    let (whole, h1) = guard-eq-ok _ _ _ h in
    let (inputs, e2, h2) = bind-eq-ok _ _ h1 in
    let (numbers, e3, h3) = bind-eq-ok _ _ h2 in
    let (id, e4, h4) = bind-eq-ok _ _ h3 in
    let (name, e5, h5) = bind-eq-ok _ _ h4 in
    let (mode, e6, h6) = bind-eq-ok _ _ h5 in
    let (group, e7, h7) = bind-eq-ok _ _ h6 in
    let (later, e8, h8) = bind-eq-ok _ _ h7 in
    let ih = length-entries_from values n (suc index) later e8 in ground (arith, ih, h8)

pub length-legacy_from :
    (values : Values) (n ch : ℕ) (raws : List Raw)
    → legacy_from values n ch ≡ ok raws
    → length raws ≡ n
unfolding legacy_from
length-legacy_from values zero ch raws h = ground (arith, h)
length-legacy_from values (suc n) ch raws h =
    let (name, e1, h1) = bind-eq-ok _ _ h in
    let (input, e2, h2) = bind-eq-ok _ _ h1 in
    let (number, e3, h3) = bind-eq-ok _ _ h2 in
    let (group, e4, h4) = bind-eq-ok _ _ h3 in
    let (later, e5, h5) = bind-eq-ok _ _ h4 in
    let ih = length-legacy_from values n (suc ch) later e5 in ground (arith, ih, h5)

pub check_keys-same :
    (n : ℕ) (values : Values) (entries : Result ConfigError (List Raw)) (raws : List Raw)
    → check_keys n values entries ≡ ok raws
    → entries ≡ ok raws
unfolding check_keys
check_keys-same n [] entries raws h = h
check_keys-same n ((k, v) ∷ rest) entries raws h =
    check_keys-same n rest entries raws (guard-eq-ok _ _ _ h).1

length-check_entries :
    (groups : List Text) (position : ℕ) (ids : List Text) (raws : List Raw) (sources : List Source)
    → check_entries groups position ids raws ≡ ok sources
    → length sources ≡ length raws
unfolding check_entries
length-check_entries groups position ids [] sources h = ground (arith, h)
length-check_entries groups position ids (raw ∷ rest) sources h =
    let (source, e1, h1) = bind-eq-ok _ _ h in
    let (later, e2, h2) = bind-eq-ok _ _ h1 in
    let ih = length-check_entries groups (suc position) (source.id ∷ ids) rest later e2 in
    ground (arith, ih, h2)

check_cover-same : (sources out : List Source) → check_cover sources ≡ ok out → sources ≡ out
unfolding check_cover
check_cover-same sources out h = ground (arith, h)

pub length-validate_source_map :
    (raws : List Raw) (groups : List Text) (version : Text) (sources : List Source)
    → validate_source_map (SourceMap.Entries.list raws) groups version ≡ ok sources
    → length sources ≡ length raws
unfolding validate_source_map
length-validate_source_map raws groups version sources h =
    let (fits, h1) = guard-eq-ok _ _ _ h in
    let (some_groups, h2) = guard-eq-ok _ _ _ h1 in
    let (list, e3, h3) = bind-eq-ok _ _ h2 in
    let (checked, e4, h4) = bind-eq-ok _ _ h3 in
    let same_raws : raws ≡ list = ground (arith, e3) in
    let same_sources = check_cover-same checked sources h4 in
    ap length (sym same_sources)
    ∙ length-check_entries groups 1 [] list checked e4
    ∙ ap length (sym same_raws)
