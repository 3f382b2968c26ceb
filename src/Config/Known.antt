-- ===== src/Config/Known.antt =====
-- What an accepted configuration is: a valid map, and no field of a source that is not known.
use sc_adat_appliance.Base.{
  ℕ, zero, suc, ◌≤◌, ◌≡◌, ◌≢◌, ◌⊎◌, ◌∙◌, sym, ap, refl, inl, inr, true, false, ◌&&◌, Option, none,
  some, List, [], ◌∷◌, ◌++◌, arith, length, leb, ◌==◌, All, Bool-cases,
}
use sc_adat_appliance.Base.Bytes.{same, same_iff}
use sc_adat_appliance.Base.Int.{ℤ, pos, negsuc}
use sc_adat_appliance.Base.Number.{int_of_text}
use sc_adat_appliance.Base.Result.{Result, ok, err}
use sc_adat_appliance.Base.Sealed.{bind-eq-ok, guard-eq-ok}
use sc_adat_appliance.Base.Text.{Text, codes, decimal}
use sc_adat_appliance.SourceMap
use sc_adat_appliance.SourceMap.{Source, Raw, Checked, Field, validate_source_map}
use sc_adat_appliance.SourceMap.Sound.{IsMap, validate_source_map-IsMap}
use sc_adat_appliance.Config.{
  Values, ConfigError, value_of, or_error, or_text, is_unknown, starts_with, is_field_of, is_field,
  fields, field_key, check_keys, counted, numbered_entries, configured_with,
  configured_source_entries, as_config, configured_sources,
}
use sc_adat_appliance.Config.Counted.{
  length-entries_from, length-legacy_from, check_keys-same, length-validate_source_map,
}

-- A key does not begin with "source.", or is "source.count", or is a field of one of the first
-- sources: "source." with its number and the name of the field.
abbrev pub IsKnown : ℕ → Text → Type 0
IsKnown n k =
    ((rest : Text) → k ≢ codes "source." ++ rest)
    ⊎ ((k ≡ codes "source.count")
        ⊎ ((i : ℕ) × (f : Field) × (1 ≤ i)
            × (i ≤ n)
            × (k ≡ codes "source." ++ decimal i ++ codes "." ++ SourceMap.key f)))

abbrev pub AllKnown : ℕ → Values → Type 0
AllKnown n values = All (λ e. IsKnown n e.0) values

starts_with-append : (s rest : Text) → starts_with s (s ++ rest) ≡ true
unfolding starts_with
starts_with-append [] rest = refl
starts_with-append (c ∷ cs) rest =
    let same_char : (c == c) ≡ true = ground arith in
    rw (same_char, starts_with-append cs rest) refl

is_field_of-key :
    (i : ℕ) (fs : List Field) (k : Text)
    → is_field_of i fs k ≡ true
    → (f : Field) × (k ≡ field_key i f)
unfolding is_field_of
is_field_of-key i [] k h = cc h
is_field_of-key i (f ∷ fs) k h = elim (Bool-cases (same k (field_key i f))) [
  | inl e ↦ (f, (same_iff k (field_key i f)).0 e)
  | inr e ↦ is_field_of-key i fs k (rw e at h)
]

is_field-key :
    (n : ℕ) (k : Text)
    → is_field n k ≡ true
    → (i : ℕ) × (f : Field) × (1 ≤ i) × (i ≤ n) × (k ≡ field_key i f)
unfolding is_field
is_field-key zero k h = cc h
is_field-key (suc n) k h = elim (Bool-cases (is_field_of (suc n) fields k)) [
  | inl e ↦
      let (f, eq) = is_field_of-key (suc n) fields k e in (suc n, f, omega arith, omega arith, eq)
  | inr e ↦
      let (i, f, low, high, eq) = is_field-key n k (rw e at h) in
      (i, f, low, omega (arith, high), eq)
]

-- The version's key has an underscore where a source's has its dot.
starts_not : starts_with (codes "source.") (codes "source_map_version") ≡ false
unfolding starts_with
starts_not = refl

version_apart : (rest : Text) → codes "source_map_version" ≢ codes "source." ++ rest
version_apart rest e =
    cc (ap (starts_with (codes "source.")) e, starts_with-append (codes "source.") rest, starts_not)

is_unknown-IsKnown : (n : ℕ) (k : Text) → is_unknown n k ≡ false → IsKnown n k
is_unknown-IsKnown n k h = elim (Bool-cases (starts_with (codes "source.") k)) [
  | inr e ↦ inl (λ rest eq. cc (rw eq at e, starts_with-append (codes "source.") rest))
  | inl e ↦ elim (Bool-cases (same k (codes "source_map_version"))) [
    | inl f ↦ inl (λ rest eq. version_apart rest (sym ((same_iff k _).0 f) ∙ eq))
    | inr f ↦ elim (Bool-cases (same k (codes "source.count"))) [
      | inl g ↦ inr (inl ((same_iff k _).0 g))
      | inr g ↦ inr (inr (is_field-key n k (ground (arith, rw (e, f, g) at h))))
    ]
  ]
]

check_keys-AllKnown :
    (n : ℕ) (values : Values) (entries : Result ConfigError (List Raw)) (raws : List Raw)
    → check_keys n values entries ≡ ok raws
    → AllKnown n values
unfolding check_keys
check_keys-AllKnown n [] entries raws h = tt
check_keys-AllKnown n ((k, v) ∷ rest) entries raws h =
    let (known, later) = guard-eq-ok _ _ _ h in
    (is_unknown-IsKnown n k known, check_keys-AllKnown n rest entries raws later)

-- The number of sources is sixteen in a configuration without a source count, and else the count,
-- which is from 1 to 16; and no key is of another source.
abbrev pub Accounts : Option Text → Values → ℕ → Type 0
Accounts none values m = m ≡ 16
Accounts (some count) values m =
    (int_of_text count ≡ some (pos m)) × (1 ≤ m) × (m ≤ 16) × AllKnown m values

or_error-ok : (e : ConfigError) (o : Option ℤ) (z : ℤ) → or_error e o ≡ ok z → o ≡ some z
or_error-ok e none z h = cc
or_error-ok e (some a) z h = ground (arith, h)

counted-Accounts :
    (values : Values) (count : Text) (z : ℤ) (raws : List Raw)
    → int_of_text count ≡ some z
    → counted values z ≡ ok raws
    → Accounts (some count) values (length raws)
counted-Accounts values count (negsuc n) raws e h = cc
counted-Accounts values count (pos n) raws e h = elim (Bool-cases (leb 1 n && leb n 16)) [
  | inr out ↦ cc (rw out at h)
  | inl fits ↦
      let (entries, found, checked) = bind-eq-ok _ _ (rw fits at h) in
      let size : length raws ≡ n =
        length-entries_from values n 1 raws
          (found ∙ check_keys-same n values (ok entries) raws checked) in
      rw size (
        e,
        ground (arith, fits),
        ground (arith, fits),
        check_keys-AllKnown n values (ok entries) raws checked,
      )
]

configured_with-Accounts :
    (values : Values) (count : Option Text) (raws : List Raw)
    → configured_with values count ≡ ok raws
    → Accounts count values (length raws)
configured_with-Accounts values none raws h = length-legacy_from values 16 1 raws h
configured_with-Accounts values (some count) raws h =
    unfold numbered_entries in
    (let (version, later) = guard-eq-ok _ _ _ h in
      let (z, number, rest) = bind-eq-ok _ _ later in
      counted-Accounts values count z raws (or_error-ok _ (int_of_text count) z number) rest)

as_config-ok :
    (c : Checked (List Source)) (sources : List Source) → as_config c ≡ ok sources → c ≡ ok sources
as_config-ok (ok ss) sources h = ground (arith, h)
as_config-ok (err e) sources h = cc

-- The sources of an accepted configuration are a valid map over the groups. They are sixteen where it
-- does not count its sources; else they are as many as it counts, the count is from 1 to 16, and
-- each key of the configuration that begins with "source." is "source.count" or a field of a source
-- up to the count.
pub configured_sources-IsMap :
    (groups : List Text) (values : Values) (sources : List Source)
    → configured_sources groups values ≡ ok sources
    → IsMap groups sources
      × Accounts (value_of (codes "source.count") values) values (length sources)
unfolding configured_sources configured_source_entries
configured_sources-IsMap groups values sources h =
    let (raws, entries, validated) = bind-eq-ok _ _ h in
    let version = or_text (codes "1") (value_of (codes "source_map_version") values) in
    let accepted = as_config-ok _ sources validated in
    let size = length-validate_source_map raws groups version sources accepted in
    (
      validate_source_map-IsMap (SourceMap.Entries.list raws) groups version sources accepted,
      rw size
          (configured_with-Accounts values (value_of (codes "source.count") values) raws entries),
    )
