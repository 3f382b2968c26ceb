-- ===== src/Bulk/Parts.antt =====
-- The parts that the server cuts its sorted items into are the items, and sorting keeps the keys apart.
use sc_adat_appliance.Base.{
  ℕ, ◌+◌, ◌*◌, ◌≤◌, ◌≡◌, sym, false, List, [], ◌∷◌, ◌++◌, arith, take, slice, take-append-drop, All,
  if_both, Bool-cases, inl, inr, take-drop, take-take,
}
use sc_adat_appliance.Base.Bytes.{same, same_iff}
use sc_adat_appliance.Base.Text.{Text, comes_before}
use sc_adat_appliance.Bulk.{Value, insert_item, sorted_items, total_chunks}
use sc_adat_appliance.Bulk.Pairs.{Distinct, keys}

-- The chunks are enough for all items.
pub total_chunks_enough : (n : ℕ) → n ≤ total_chunks 8 n * 8
unfolding total_chunks
total_chunks_enough n = ground arith

module _ {A : Type 0} where
  -- What is before an index, and its part, is what is before the next index.
  pub take_next :
      (size index : ℕ) (items : List A)
      → take (index * size) items ++ slice (index * size) ((index + 1) * size) items
        ≡ take ((index + 1) * size) items
  unfolding slice
  take_next size index items =
      let up : index * size ≤ (index + 1) * size = omega arith in
      rw
        (
          take-drop (index * size) ((index + 1) * size) items,
          ← take-take (index * size) ((index + 1) * size) items up,
        )
        (take-append-drop (index * size) (take ((index + 1) * size) items))

-- `same` does not mind the order.
same_comm : (s t : Text) → same s t ≡ false → same t s ≡ false
same_comm s t h = elim (Bool-cases (same t s)) [
  | inr e ↦ e
  | inl e ↦ let equal : t ≡ s = (same_iff t s).0 e in cc ((same_iff s t).1 (sym equal), h)
]

module _ {F : Type 0} where
  insert_item-away :
      (k : Text) (e : Text × Value F) (items : List (Text × Value F))
      → same k e.0 ≡ false
      → All (λ j. same k j ≡ false) (keys items)
      → All (λ j. same k j ≡ false) (keys (insert_item e items))
  unfolding insert_item
  insert_item-away k e [] new h = (new, tt)
  insert_item-away k e (f ∷ fs) new h =
      if_both (λ (es : List (Text × Value F)). All (λ j. same k j ≡ false) (keys es))
        (comes_before e.0 f.0) _ _ (new, h) (h.0, insert_item-away k e fs new h.1)

  insert_item-Distinct :
      (e : Text × Value F) (items : List (Text × Value F))
      → Distinct (e.0 ∷ keys items)
      → Distinct (keys (insert_item e items))
  unfolding insert_item
  insert_item-Distinct e [] h = h
  insert_item-Distinct e (f ∷ fs) h =
      if_both (λ (es : List (Text × Value F)). Distinct (keys es)) (comes_before e.0 f.0) _ _ h
        (
          insert_item-away f.0 e fs (same_comm e.0 f.0 h.0.0) h.1.0,
          insert_item-Distinct e fs (h.0.1, h.1.1),
        )

  sorted_items-away :
      (k : Text) (items : List (Text × Value F))
      → All (λ j. same k j ≡ false) (keys items)
      → All (λ j. same k j ≡ false) (keys (sorted_items items))
  unfolding sorted_items
  sorted_items-away k [] h = tt
  sorted_items-away k (e ∷ es) h =
      insert_item-away k e (sorted_items es) h.0 (sorted_items-away k es h.1)

  -- The keys of the sorted items are distinct where those of the state are.
  pub sorted_items-Distinct :
      (items : List (Text × Value F)) → Distinct (keys items) → Distinct (keys (sorted_items items))
  unfolding sorted_items
  sorted_items-Distinct [] h = tt
  sorted_items-Distinct (e ∷ es) h =
      insert_item-Distinct e (sorted_items es)
        (sorted_items-away e.0 es h.0, sorted_items-Distinct es h.1)

  insert_item-All :
      (P : Text × Value F → Type 0) (e : Text × Value F) (items : List (Text × Value F))
      → P e
      → All P items
      → All P (insert_item e items)
  unfolding insert_item
  insert_item-All P e [] new h = (new, tt)
  insert_item-All P e (f ∷ fs) new h =
      if_both (λ (es : List (Text × Value F)). All P es) (comes_before e.0 f.0) _ _ (new, h)
        (h.0, insert_item-All P e fs new h.1)

  pub sorted_items-All :
      (P : Text × Value F → Type 0) (items : List (Text × Value F))
      → All P items
      → All P (sorted_items items)
  unfolding sorted_items
  sorted_items-All P [] h = tt
  sorted_items-All P (e ∷ es) h =
      insert_item-All P e (sorted_items es) h.0 (sorted_items-All P es h.1)
