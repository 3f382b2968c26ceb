-- ===== src/Listing/Pointer/Laws.antt =====
-- The states of the data pointer form a flow whose order is "equal or unknown".
use sc_adat_appliance.Base.{
  ℕ, ◌≤◌, ◌<◌, ◌≡◌, ◌≢◌, ◌↔◌, refl, true, Option, none, some, List, get_elem?, arith,
}
use sc_adat_appliance.Listing.{Row, Names}
use sc_adat_appliance.Listing.Flow.Steps.{IsFlow}
use sc_adat_appliance.Listing.Pointer.{
  Value, unknown, known, merge_state, same_value, Effect, sets, clears, steps, keeps, act, act_of,
  transfer_dptr, pointer_flow, effect,
}

-- Merging `a` into `b` changes nothing.
abbrev Under : Value → Value → Type 0
Under a b = merge_state b a ≡ b

pub same_value_iff : (a b : Value) → (same_value a b ≡ true) ↔ (a ≡ b)
unfolding same_value
same_value_iff unknown unknown = (λ h. refl, λ h. refl)
same_value_iff unknown (known m) = (λ h. cc, λ h. cc)
same_value_iff (known n) unknown = (λ h. cc, λ h. cc)
same_value_iff (known n) (known m) = (λ h. ground arith, λ h. ground arith)

pub merge_idem : (a : Value) → Under a a
unfolding merge_state
merge_idem unknown = refl
merge_idem (known n) = ground arith

pub merge_left : (a b : Value) → Under a (merge_state a b)
unfolding merge_state
merge_left unknown b = refl
merge_left (known n) unknown = refl
merge_left (known n) (known m) = ground arith

pub merge_right : (a b : Value) → Under b (merge_state a b)
unfolding merge_state
merge_right unknown b = refl
merge_right (known n) unknown = refl
merge_right (known n) (known m) = ground arith

pub merge_trans : (a b c : Value) → Under a b → Under b c → Under a c
unfolding merge_state
merge_trans a b unknown h k = refl
merge_trans a unknown (known n) h k = cc
merge_trans unknown (known m) (known n) h k = cc
merge_trans (known l) (known m) (known n) h k = ground arith

unfoldable pub rank : Value → ℕ
rank (known n) = 0
rank unknown = 1

pub rank_le : (a : Value) → rank a ≤ 1
unfolding rank
rank_le unknown = omega arith
rank_le (known n) = omega arith

pub rank_lt : (a b : Value) → merge_state a b ≢ a → rank a < rank (merge_state a b)
unfolding rank merge_state
rank_lt unknown b h = absurd (h refl)
rank_lt (known n) unknown h = omega arith
rank_lt (known n) (known m) h = ground arith

act_mono : (e : Effect) (a b : Value) → Under a b → Under (act e a) (act e b)
unfolding act merge_state
act_mono (sets n) a b h = ground arith
act_mono clears a b h = refl
act_mono steps a unknown h = refl
act_mono steps unknown (known m) h = cc
act_mono steps (known n) (known m) h = ground arith
act_mono keeps a b h = h

act_of_mono : (r : Option Row) (a b : Value) → Under a b → Under (act_of r a) (act_of r b)
act_of_mono none a b h = h
act_of_mono (some row) a b h = act_mono (effect row.text) a b h

pub pointer_flow-IsFlow : (rows : List Row) (labels : Names) → IsFlow (pointer_flow rows labels)
unfolding pointer_flow transfer_dptr
pointer_flow-IsFlow rows labels = record {
  same_iff = same_value_iff;
  idem = merge_idem;
  left = merge_left;
  right = merge_right;
  trans = merge_trans;
  rank = rank;
  rank_le = rank_le;
  rank_lt = rank_lt;
  mono = λ i a b h. act_of_mono (get_elem? rows i) a b h;
}
