-- ===== src/Bulk/Held.antt =====
-- What a client holds while the datagrams of one snapshot arrive, in any order.
use sc_adat_appliance.Base.{
  ℕ, ◌+◌, ◌-◌, ◌*◌, ◌<◌, ◌≡◌, refl, ap, ◌⊎◌, inr, Bool, true, false, not, Option, none, some, List,
  [], arith, length, take, drop, slice, All, All-take, All-drop,
}
use sc_adat_appliance.Base.Bytes.{same, same_refl}
use sc_adat_appliance.Base.Dict.{get, put}
use sc_adat_appliance.Base.Int.{ℤ, pos}
use sc_adat_appliance.Base.Result.{ok}
use sc_adat_appliance.Base.Sealed.{bind_ok, guard_ok}
use sc_adat_appliance.Base.Text.{Text}
use sc_adat_appliance.Osc.{Floats}
use sc_adat_appliance.Osc.RoundTrip.{all_received}
use sc_adat_appliance.Bulk.{Value, Message, chunk, complete, part}
use sc_adat_appliance.Bulk.Client.{
  or_conversion, Client, Entries, is_snapshot, read_chunk, read_completion, receive, conflicts,
}
use sc_adat_appliance.Bulk.Pairs.{
  Distinct, Distinct-take, Distinct-drop, keys, delivered, length-pair_types, length-pair_values,
  read_pairs-pair_values,
}
use sc_adat_appliance.Bulk.Indexes.{Single, put-All, put-Single, get-All}
use sc_adat_appliance.Bulk.Repeats.{Comparable, same_entries_refl}

-- A message as it is parsed at the other end.
abbrev pub arrived : (floats : Floats) → Message (floats.F) → Message (floats.F)
arrived floats m = record { path = m.path; types = m.types; values = all_received floats m.values }

-- A chunk of the snapshot, as the dictionary of the chunks holds it.
abbrev pub Held :
    (floats : Floats) → List (Text × Value (floats.F)) → ℕ → ℕ × (ℤ × Entries (floats.F)) → Type 0
Held floats items n (i, (total, entries)) =
    (i < n) × (total ≡ pos n) × (entries ≡ delivered floats (part 8 items i))

pub record IsHolding (floats : Floats) (snapshot : Text) (items : List (Text × Value (floats.F)))
    (n : ℕ) (m : Client (floats.F)) : Type 0 where
  pub known : is_snapshot snapshot m.snapshot ≡ true
  pub completed : (m.completion ≡ none) ⊎ (m.completion ≡ some (pos n, pos (length items)))
  pub once : Single m.chunks
  pub held : All (Held floats items n) m.chunks

module _ (floats : Floats) (equal : floats.F → floats.F → Bool) (snapshot : Text)
    (items : List (Text × Value (floats.F))) (n : ℕ) (apart : Distinct (keys items))
    (fine : All (Comparable floats equal) items) where
  open floats use {F, int_of-int, text_of-str}

  part-Distinct : (i : ℕ) → Distinct (keys (part 8 items i))
  unfolding slice
  part-Distinct i =
      Distinct-take ((i + 1) * 8 - i * 8) (drop (i * 8) items) (Distinct-drop (i * 8) items apart)

  part-Comparable : (i : ℕ) → All (Comparable floats equal) (part 8 items i)
  unfolding slice
  part-Comparable i =
      All-take (Comparable floats equal) ((i + 1) * 8 - i * 8) (drop (i * 8) items)
        (All-drop (Comparable floats equal) (i * 8) items fine)

  -- What is held does not conflict with a chunk that arrives again.
  no_conflict :
      (m : Client F) (i : ℕ)
      → IsHolding floats snapshot items n m
      → conflicts floats equal (get i m.chunks) (pos n) (delivered floats (part 8 items i)) ≡ false
  no_conflict m i h = go (get i m.chunks) refl
    where
      go :
          (o : Option (ℤ × Entries F))
          → get i m.chunks ≡ o
          → conflicts floats equal o (pos n) (delivered floats (part 8 items i)) ≡ false
      go none e = refl
      go (some (t, es)) e =
          let (below, total, entries) = get-All (Held floats items n) i (t, es) m.chunks h.held e in
          rw
            (
              total,
              entries,
              same_entries_refl floats equal (part 8 items i) (part-Comparable i) (part-Distinct i),
            )
            (ground arith)

  -- A chunk of the snapshot is stored at its index.
  pub receive-chunk :
      (m : Client F) (i : ℕ)
      → i < n
      → IsHolding floats snapshot items n m
      → receive floats equal (arrived floats (chunk snapshot i n (part 8 items i))) m
        ≡ ok (record m {
          snapshot = some snapshot;
          chunks = put i (pos n, delivered floats (part 8 items i)) m.chunks;
        })
  unfolding receive read_chunk same take drop
  receive-chunk m i below h =
      let p = part 8 items i in
      guard_ok _ refl (
        bind_ok _ (ap or_conversion (int_of-int (pos i))) (
          bind_ok _ (ap or_conversion (int_of-int (pos n)))
            let tags = length-pair_types floats p in
              let values = length-pair_values floats p in
              rw (text_of-str snapshot) (
                guard_ok _ (ap not h.known) (
                  guard_ok _ (ground (arith, below)) (
                    guard_ok _ (rw (tags, values) (ground arith)) (
                      bind_ok _ (read_pairs-pair_values floats equal p [] (part-Distinct i))
                        (guard_ok _ (no_conflict m i h) refl)))))))

  -- The completion record is stored.
  pub receive-complete :
      (m : Client F)
      → IsHolding floats snapshot items n m
      → receive floats equal (arrived floats (complete snapshot n (length items))) m
        ≡ ok (record m { snapshot = some snapshot; completion = some (pos n, pos (length items)) })
  unfolding receive read_completion same
  receive-complete m h = guard_ok _ refl (
      bind_ok _ (ap or_conversion (int_of-int (pos n))) (
        bind_ok _ (ap or_conversion (int_of-int (pos (length items))))
          (rw (text_of-str snapshot) (guard_ok _ (ap not h.known) refl))))

  -- Storing a chunk keeps the invariant.
  pub chunk-IsHolding :
      (m : Client F) (i : ℕ)
      → i < n
      → IsHolding floats snapshot items n m
      → IsHolding floats snapshot items n (record m {
        snapshot = some snapshot;
        chunks = put i (pos n, delivered floats (part 8 items i)) m.chunks;
      })
  chunk-IsHolding m i below h = record {
    known = same_refl snapshot;
    completed = h.completed;
    once = put-Single i (pos n, delivered floats (part 8 items i)) m.chunks h.once;
    held =
        put-All (Held floats items n) i (pos n, delivered floats (part 8 items i)) m.chunks
          (below, refl, refl) h.held;
  }

  pub complete-IsHolding :
      (m : Client F)
      → IsHolding floats snapshot items n m
      → IsHolding floats snapshot items n
          (record m { snapshot = some snapshot; completion = some (pos n, pos (length items)) })
  complete-IsHolding m h = record {
    known = same_refl snapshot;
    completed = inr refl;
    once = h.once;
    held = h.held;
  }
