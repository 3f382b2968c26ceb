-- ===== src/Bulk/Pairs.antt =====
-- The pairs of a chunk, read back: with distinct keys a dictionary is what was put into it, in order.
use sc_adat_appliance.Base.{
  ℕ, ◌+◌, ◌≡◌, refl, sym, ap, subst, ◌∙◌, not, ◌||◌, Bool, false, List, [], ◌∷◌, ◌++◌, append_assoc,
  append-nil, take, drop, take-append-drop, arith, length, ◌==◌, All,
}
use sc_adat_appliance.Base.Bytes.{same}
use sc_adat_appliance.Base.Result.{ok}
use sc_adat_appliance.Base.Sealed.{guard_ok}
use sc_adat_appliance.Base.Text.{Text}
use sc_adat_appliance.Osc.{Arg, Floats}
use sc_adat_appliance.Osc.RoundTrip.{received, all_received}
use sc_adat_appliance.Bulk.{Value, number, text, tag_of, as_arg, pair_types, pair_values}
use sc_adat_appliance.Bulk.Client.{Entries, put_entry, update, read_pairs}

-- No key twice.
abbrev pub Distinct : List Text → Type 0
Distinct [] = Unit
Distinct (k ∷ ks) = All (λ j. same k j ≡ false) ks × Distinct ks

All-append_left :
    (k : Text) (ks js : List Text)
    → All (λ j. same k j ≡ false) (ks ++ js)
    → All (λ j. same k j ≡ false) ks
All-append_left k [] js h = tt
All-append_left k (i ∷ ks) js h = (h.0, All-append_left k ks js h.1)

pub Distinct-left : (ks js : List Text) → Distinct (ks ++ js) → Distinct ks
Distinct-left [] js h = tt
Distinct-left (k ∷ ks) js h = (All-append_left k ks js h.0, Distinct-left ks js h.1)

pub Distinct-right : (ks js : List Text) → Distinct (ks ++ js) → Distinct js
Distinct-right [] js h = h
Distinct-right (k ∷ ks) js h = Distinct-right ks js h.1

module _ {A : Type 0} where
  abbrev pub keys : List (Text × A) → List Text
  keys [] = []
  keys ((k, v) ∷ rest) = k ∷ keys rest

  pub keys-append : (d e : List (Text × A)) → keys (d ++ e) ≡ keys d ++ keys e
  keys-append [] e = refl
  keys-append ((k, v) ∷ d) e = ap (λ (ks : List Text). k ∷ ks) (keys-append d e)

module _ {A : Type 0} where
  -- Keys that are distinct are so before and after a place.
  split-Distinct :
      (n : ℕ) (d : List (Text × A))
      → Distinct (keys d)
      → Distinct (keys (take n d) ++ keys (drop n d))
  split-Distinct n d h =
      subst (λ ks. Distinct ks)
        (sym (ap (λ (e : List (Text × A)). keys e) (take-append-drop n d))
          ∙ keys-append (take n d) (drop n d))
        h

  pub Distinct-take : (n : ℕ) (d : List (Text × A)) → Distinct (keys d) → Distinct (keys (take n d))
  Distinct-take n d h = Distinct-left (keys (take n d)) (keys (drop n d)) (split-Distinct n d h)

  pub Distinct-drop : (n : ℕ) (d : List (Text × A)) → Distinct (keys d) → Distinct (keys (drop n d))
  Distinct-drop n d h = Distinct-right (keys (take n d)) (keys (drop n d)) (split-Distinct n d h)

pub last-absent :
    (j k : Text) (ks js : List Text) → All (λ i. same j i ≡ false) (ks ++ k ∷ js) → same j k ≡ false
last-absent j k [] js h = h.0
last-absent j k (i ∷ ks) js h = last-absent j k ks js h.1

module _ {F : Type 0} where
  put_entry-new :
      (k : Text) (v : Arg F) (d : Entries F) (js : List Text)
      → Distinct (keys d ++ k ∷ js)
      → put_entry k v d ≡ d ++ (k, v) ∷ []
  unfolding put_entry
  put_entry-new k v [] js h = refl
  put_entry-new k v ((j, w) ∷ rest) js h =
      rw (last-absent j k (keys rest) js h.0, put_entry-new k v rest js h.1) refl

  -- Adding at the end keeps the list of all keys.
  pub shifted :
      (k : Text) (v : Arg F) (d : Entries F) (js : List Text)
      → Distinct (keys d ++ k ∷ js)
      → Distinct (keys (d ++ (k, v) ∷ []) ++ js)
  shifted k v d js h = rw (keys-append d ((k, v) ∷ []), append_assoc (keys d) (k ∷ []) js) h

  pub update_new : (d e : Entries F) → Distinct (keys d ++ keys e) → update d e ≡ d ++ e
  unfolding update
  update_new d [] h = sym (append-nil d)
  update_new d ((k, v) ∷ e) h =
      rw
        (put_entry-new k v d (keys e) h, update_new (d ++ (k, v) ∷ []) e (shifted k v d (keys e) h))
        (append_assoc d ((k, v) ∷ []) e)

module _ (floats : Floats) where
  open floats use {F}

  -- The entries as a client gets them.
  abbrev pub delivered : List (Text × Value F) → Entries F
  delivered [] = []
  delivered ((k, v) ∷ rest) = (k, received floats (as_arg v)) ∷ delivered rest

  pub keys-delivered : (items : List (Text × Value F)) → keys (delivered items) ≡ keys items
  keys-delivered [] = refl
  keys-delivered ((k, v) ∷ rest) = ap (λ (ks : List Text). k ∷ ks) (keys-delivered rest)

  pub length-delivered : (items : List (Text × Value F)) → length (delivered items) ≡ length items
  length-delivered [] = refl
  length-delivered ((k, v) ∷ rest) = omega (arith, length-delivered rest)

  pub delivered-append :
      (xs ys : List (Text × Value F)) → delivered (xs ++ ys) ≡ delivered xs ++ delivered ys
  delivered-append [] ys = refl
  delivered-append ((k, v) ∷ xs) ys =
      ap (λ (es : Entries F). (k, received floats (as_arg v)) ∷ es) (delivered-append xs ys)

  -- A chunk has two tags and two values for each item.
  pub length-pair_types :
      (items : List (Text × Value F)) → length (pair_types items) ≡ length items + length items
  unfolding pair_types
  length-pair_types [] = refl
  length-pair_types ((k, v) ∷ rest) = omega (arith, length-pair_types rest)

  pub length-pair_values :
      (items : List (Text × Value F))
      → length (all_received floats (pair_values items)) ≡ length items + length items
  unfolding pair_values
  length-pair_values [] = refl
  length-pair_values ((k, v) ∷ rest) = omega (arith, length-pair_values rest)

module _ {F : Type 0} where
  is_tag :
      (v : Value F) → (not (b's' == b's') || not (tag_of v == b'f' || tag_of v == b's')) ≡ false
  is_tag (number x) = refl
  is_tag (text t) = refl

module _ (floats : Floats) (equal : floats.F → floats.F → Bool) where
  open floats use {F, text_of-str}

  -- The pairs of items with distinct keys are read as these items.
  pub read_pairs-pair_values :
      (items : List (Text × Value F)) (d : Entries F)
      → Distinct (keys d ++ keys items)
      → read_pairs floats equal (pair_types items) (all_received floats (pair_values items)) d
        ≡ ok (d ++ delivered floats items)
  unfolding pair_types pair_values read_pairs
  read_pairs-pair_values [] d h = ap ok (sym (append-nil d))
  read_pairs-pair_values ((k, v) ∷ rest) d h = guard_ok _ (is_tag v) (
      rw
        (
          text_of-str k,
          put_entry-new k (received floats (as_arg v)) d (keys rest) h,
          ← append_assoc d ((k, received floats (as_arg v)) ∷ []) (delivered floats rest),
        )
        (read_pairs-pair_values rest (d ++ (k, received floats (as_arg v)) ∷ [])
          (shifted k (received floats (as_arg v)) d (keys rest) h)))
