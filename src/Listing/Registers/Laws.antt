-- ===== src/Listing/Registers/Laws.antt =====
-- The ten registers form a flow, register by register that of the data pointer.
use mathlib.Core.Path.{fun_ext}
use sc_adat_appliance.Base.{
  ℕ, ◌+◌, ◌≤◌, ◌<◌, ◌≡◌, ◌≢◌, ◌↔◌, refl, ap, sym, inl, inr, true, false, List, [], ◌∷◌, ◌==◌,
  Bool-cases, length, get_elem?, All, arith,
}
use sc_adat_appliance.Listing.{Row, Names}
use sc_adat_appliance.Listing.Flow.Steps.{IsFlow}
use sc_adat_appliance.Listing.Pointer.{Value, unknown, known, merge_state, same_value}
use sc_adat_appliance.Listing.Pointer.Laws.{
  same_value_iff, merge_idem, merge_left, merge_right, merge_trans, rank, rank_le, rank_lt,
}
use sc_adat_appliance.Listing.Registers.{
  Register, a, b, r0, r1, r2, r3, r4, r5, r6, r7, registers, number, Registers, unknown_registers,
  assign, Change, forget_all, forget, put, copy, add, swap, bumped, apply, apply_all, row_changes,
  transfer_registers, merge_registers, same_in, register_flow,
}

-- Each value of `s` is that of `t`, or unknown in `t`.
abbrev Under : Registers → Registers → Type 0
Under s t = (r : Register) → merge_state (t r) (s r) ≡ t r

Under-iff : (s t : Registers) → Under s t ↔ (merge_registers t s ≡ t)
unfolding merge_registers
Under-iff s t = (λ h. fun_ext h, λ e r. ap (λ (g : Registers). g r) e)

same_in_refl : (rs : List Register) (s : Registers) → same_in rs s s ≡ true
unfolding same_in
same_in_refl [] s = refl
same_in_refl (r ∷ rs) s = rw ((same_value_iff (s r) (s r)).1 refl) (same_in_refl rs s)

same_in-All :
    (rs : List Register) (s t : Registers) → same_in rs s t ≡ true → All (λ r. s r ≡ t r) rs
unfolding same_in
same_in-All [] s t h = tt
same_in-All (r ∷ rs) s t h = elim (Bool-cases (same_value (s r) (t r))) [
  | inl same ↦ ((same_value_iff (s r) (t r)).0 same, same_in-All rs s t (rw same at h))
  | inr differs ↦ absurd (cc (rw differs at h))
]

All-registers : (P : Register → Type 0) → All P registers → (r : Register) → P r
All-registers P h a = h.0
All-registers P h b = h.1.0
All-registers P h r0 = h.1.1.0
All-registers P h r1 = h.1.1.1.0
All-registers P h r2 = h.1.1.1.1.0
All-registers P h r3 = h.1.1.1.1.1.0
All-registers P h r4 = h.1.1.1.1.1.1.0
All-registers P h r5 = h.1.1.1.1.1.1.1.0
All-registers P h r6 = h.1.1.1.1.1.1.1.1.0
All-registers P h r7 = h.1.1.1.1.1.1.1.1.1.0

same_in_all : (s t : Registers) → same_in registers s t ≡ true → (r : Register) → s r ≡ t r
same_in_all s t h = All-registers (λ r. s r ≡ t r) (same_in-All registers s t h)

same_in_iff : (s t : Registers) → (same_in registers s t ≡ true) ↔ (s ≡ t)
same_in_iff s t = (λ h. fun_ext (same_in_all s t h), λ e. rw e (same_in_refl registers t))

-- The number of unknown registers.
ranks : List Register → Registers → ℕ
ranks [] s = 0
ranks (r ∷ rs) s = rank (s r) + ranks rs s

ranks_le : (rs : List Register) (s : Registers) → ranks rs s ≤ length rs
unfolding ranks
ranks_le [] s = omega arith
ranks_le (r ∷ rs) s = omega (arith, ranks_le rs s, rank_le (s r))

rank-merge : (x y : Value) → rank x ≤ rank (merge_state x y)
unfolding rank merge_state
rank-merge unknown y = omega arith
rank-merge (known n) y = omega arith

ranks-merge : (rs : List Register) (s t : Registers) → ranks rs s ≤ ranks rs (merge_registers s t)
unfolding ranks merge_registers
ranks-merge [] s t = omega arith
ranks-merge (r ∷ rs) s t = omega (arith, ranks-merge rs s t, rank-merge (s r) (t r))

-- A merge that changes a register raises the number.
ranks_lt :
    (rs : List Register) (s t : Registers)
    → same_in rs s (merge_registers s t) ≡ false
    → ranks rs s < ranks rs (merge_registers s t)
unfolding ranks merge_registers same_in
ranks_lt [] s t h = cc
ranks_lt (r ∷ rs) s t h = elim (Bool-cases (same_value (s r) (merge_state (s r) (t r)))) [
  | inl same ↦ omega (arith, ranks_lt rs s t (rw same at h), rank-merge (s r) (t r))
  | inr differs ↦
      let moved : merge_state (s r) (t r) ≢ s r =
        λ e. cc ((same_value_iff (s r) (merge_state (s r) (t r))).1 (sym e), differs) in
      omega (arith, ranks-merge rs s t, rank_lt (s r) (t r) moved)
]

bumped_mono :
    (k : ℕ) (x y : Value) → merge_state y x ≡ y → merge_state (bumped k y) (bumped k x) ≡ bumped k y
unfolding merge_state
bumped_mono k x unknown h = refl
bumped_mono k unknown (known m) h = cc
bumped_mono k (known n) (known m) h = ground arith

assign_mono :
    (r : Register) (x y : Value) (s t : Registers)
    → merge_state y x ≡ y
    → Under s t
    → Under (assign r x s) (assign r y t)
unfolding assign
assign_mono r x y s t h k q = elim (Bool-cases (number r == number q)) [
  | inl same ↦ rw same h
  | inr other ↦ rw other (k q)
]

apply_mono : (c : Change) (s t : Registers) → Under s t → Under (apply c s) (apply c t)
unfolding apply unknown_registers
apply_mono forget_all s t h = λ r. merge_idem unknown
apply_mono (forget r) s t h = assign_mono r unknown unknown s t (merge_idem unknown) h
apply_mono (put r n) s t h = assign_mono r (known n) (known n) s t (merge_idem (known n)) h
apply_mono (copy r q) s t h = assign_mono r (s q) (t q) s t (h q) h
apply_mono (add r k) s t h =
    assign_mono r (bumped k (s r)) (bumped k (t r)) s t (bumped_mono k (s r) (t r) (h r)) h
apply_mono (swap r) s t h =
    assign_mono r (s a) (t a) (assign a (s r) s) (assign a (t r) t) (h a)
      (assign_mono a (s r) (t r) s t (h r) h)

apply_all_mono :
    (cs : List Change) (s t : Registers) → Under s t → Under (apply_all cs s) (apply_all cs t)
unfolding apply_all
apply_all_mono [] s t h = h
apply_all_mono (c ∷ cs) s t h = apply_all_mono cs (apply c s) (apply c t) (apply_mono c s t h)

pub register_flow-IsFlow : (rows : List Row) (labels : Names) → IsFlow (register_flow rows labels)
unfolding register_flow
register_flow-IsFlow rows labels = record {
  same_iff = same_in_iff;
  idem = λ s. (Under-iff s s).0 (λ r. merge_idem (s r));
  left = λ s t.
      (Under-iff s (merge_registers s t)).0 (unfold merge_registers in λ r. merge_left (s r) (t r));
  right = λ s t.
      (Under-iff t (merge_registers s t)).0
        (unfold merge_registers in λ r. merge_right (s r) (t r));
  trans = λ s t u h k.
      (Under-iff s u).0
        (λ r. merge_trans (s r) (t r) (u r) ((Under-iff s t).1 h r) ((Under-iff t u).1 k r));
  rank = ranks registers;
  rank_le = ranks_le registers;
  rank_lt = λ s t moved. elim (Bool-cases (same_in registers s (merge_registers s t))) [
    | inl same ↦ absurd (moved (sym ((same_in_iff s (merge_registers s t)).0 same)))
    | inr differs ↦ ranks_lt registers s t differs
  ];
  mono = λ i s t h. (Under-iff (transfer_registers rows i s) (transfer_registers rows i t)).0 (
      unfold transfer_registers in
      apply_all_mono (row_changes (get_elem? rows i)) s t ((Under-iff s t).1 h));
}
