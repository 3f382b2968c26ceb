-- ===== src/Bulk/Repeats.antt =====
-- A chunk that arrives again is equal to itself, unless it holds a NaN.
use sc_adat_appliance.Base.{
  ◌≡◌, refl, sym, subst, Bool, true, some, List, [], ◌∷◌, ◌++◌, append_assoc, arith, All,
}
use sc_adat_appliance.Base.Bytes.{same_refl}
use sc_adat_appliance.Base.Text.{Text}
use sc_adat_appliance.Osc.{Arg, Floats}
use sc_adat_appliance.Osc.RoundTrip.{received}
use sc_adat_appliance.Bulk.{Value, number, text, as_arg}
use sc_adat_appliance.Bulk.Client.{Entries, get_entry, same_value, contained, same_entries}
use sc_adat_appliance.Bulk.Pairs.{Distinct, keys, keys-delivered, delivered, last-absent, shifted}

module _ (floats : Floats) (equal : floats.F → floats.F → Bool) where
  open floats use {F, single}

  -- A number is equal to itself, as each float but a NaN is.
  abbrev pub Comparable : Text × Value F → Type 0
  Comparable (k, number x) = equal (single x) (single x) ≡ true
  Comparable (k, text t) = Unit

  get_entry-append :
      (k : Text) (w : Arg F) (d e : Entries F)
      → Distinct (keys d ++ k ∷ keys e)
      → get_entry k (d ++ (k, w) ∷ e) ≡ some w
  unfolding get_entry
  get_entry-append k w [] e h = rw (same_refl k) refl
  get_entry-append k w ((j, v) ∷ d) e h =
      rw (last-absent j k (keys d) (keys e) h.0) (get_entry-append k w d e h.1)

  same_value_refl :
      (k : Text) (v : Value F)
      → Comparable (k, v)
      → same_value floats equal (received floats (as_arg v)) (received floats (as_arg v)) ≡ true
  same_value_refl k (number x) h = h
  same_value_refl k (text t) h = same_refl t

  contained-delivered :
      (d : Entries F) (items : List (Text × Value F))
      → All Comparable items
      → Distinct (keys d ++ keys items)
      → contained floats equal (d ++ delivered floats items) (delivered floats items) ≡ true
  unfolding contained
  contained-delivered d [] fine h = refl
  contained-delivered d ((k, v) ∷ rest) fine h =
      let here : Distinct (keys d ++ k ∷ keys (delivered floats rest)) =
        subst (λ ks. Distinct (keys d ++ k ∷ ks)) (sym (keys-delivered floats rest)) h in
      let value = received floats (as_arg v) in
      let later =
        contained-delivered (d ++ (k, value) ∷ []) rest fine.1 (shifted k value d (keys rest) h) in
      let joined = append_assoc d ((k, value) ∷ []) (delivered floats rest) in
      rw (get_entry-append k value d (delivered floats rest) here, same_value_refl k v fine.0)
        (subst (λ es. contained floats equal es (delivered floats rest) ≡ true) joined later)

  pub same_entries_refl :
      (items : List (Text × Value F))
      → All Comparable items
      → Distinct (keys items)
      → same_entries floats equal (delivered floats items) (delivered floats items) ≡ true
  unfolding same_entries
  same_entries_refl items fine h = ground (arith, contained-delivered [] items fine h)
