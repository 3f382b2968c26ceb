-- ===== src/U17/Service/Transfer.antt =====
-- What the dispatch does over whole transfers: the states that it can be in, and how many bytes
-- the counted states consume.
use sc_adat_appliance.Base.{
  ℕ, ◌-◌, ◌≤◌, ◌<◌, zero, suc, ◌≡◌, ◌⊎◌, refl, ap, List, [], ◌∷◌, Bool, true, false, ◌==◌,
  if◌then◌else◌, arith, length,
}
use sc_adat_appliance.U17.Service.{
  Event, Action, write_last, write_byte, less_one, dispatch, simulate_service_byte, simulate,
}

-- The states that the dispatch knows, with a byte as the count, which is a block size in 0x28.
pub record IsService (state count : ℕ) : Type 0 where
  pub known :
      (state ≡ 0) ⊎ (state ≡ 1) ⊎ (state ≡ 2) ⊎ (state ≡ 0x28) ⊎ (state ≡ 0x29) ⊎ (state ≡ 0x5A)
  pub count_byte : count < 256
  pub block_count : state ≡ 0x28 → (1 ≤ count) × (count ≤ 0x80)

-- From a state that the dispatch knows, with a byte as the count that is a block size in state
-- 0x28, every byte leads to such a state again.
pub simulate_service_byte-IsService :
    (state value count : ℕ)
    → value < 256
    → IsService state count
    → IsService
        (simulate_service_byte state value count).1
        (simulate_service_byte state value count).2
unfolding simulate_service_byte dispatch
simulate_service_byte-IsService state value count b h = record {
  known = ground arith;
  count_byte = ground arith;
  block_count = ground arith;
}

-- The bytes that the events write.
abbrev is_write : Action → Bool
is_write write_last = true
is_write write_byte = true
is_write _ = false

abbrev pub written : List Event → List ℕ
written [] = []
written (e ∷ es) = if is_write e.action then e.service_byte ∷ written es else written es

abbrev write_event : ℕ → Action → ℕ → ℕ → Event
write_event v action after count = record {
  before = 0x29;
  service_byte = v;
  action = action;
  after = after;
  count = count;
}

step_last :
    (v c : ℕ)
    → less_one c ≡ 0
    → simulate_service_byte 0x29 v c ≡ (write_event v write_last 0 0, 0, 0)
unfolding simulate_service_byte dispatch
step_last v c e = rw e refl

step_more :
    (v c k : ℕ)
    → less_one c ≡ suc k
    → simulate_service_byte 0x29 v c ≡ (write_event v write_byte 0x29 (suc k), 0x29, suc k)
unfolding simulate_service_byte dispatch
step_more v c k e = let no : (suc k == 0) ≡ false = ground arith in rw (e, no) refl

-- From the payload state on, exactly `less_one c + 1` bytes are written, and the state is clear.
payload-simulate :
    (payload : List ℕ) (c k : ℕ)
    → less_one c ≡ k
    → k < 256
    → length payload ≡ suc k
    → ((simulate 0x29 c payload).1 ≡ 0)
      × ((simulate 0x29 c payload).2 ≡ 0)
      × (written (simulate 0x29 c payload).0 ≡ payload)
unfolding simulate
payload-simulate [] c k e b h = absurd (omega arith)
payload-simulate (v ∷ []) c zero e b h = rw (step_last v c e) (refl, refl, refl)
payload-simulate (v ∷ []) c (suc k) e b h = absurd (omega arith)
payload-simulate (v ∷ w ∷ rest) c zero e b h = absurd (omega arith)
payload-simulate (v ∷ w ∷ rest) c (suc k) e b h =
    let ih = payload-simulate (w ∷ rest) (suc k) k (omega arith) (omega arith) (omega arith) in
    rw (step_more v c k e) (ih.0, ih.1, ap (λ (t : List ℕ). v ∷ t) ih.2)

-- A count n of at least 1 and at most 0x80, a block index below 0xFC and as many payload bytes as
-- the two decrements leave (n - 1, and 256 for n = 1) bring the dispatch from the clear state
-- back to it, with exactly the payload written.
pub transfer_completes :
    (n block c : ℕ) (payload : List ℕ)
    → 1 ≤ n
    → n ≤ 0x80
    → block < 0xFC
    → length payload ≡ (if n == 1 then 256 else n - 1)
    → let (events, state, count) = simulate 0 c (0x02 ∷ n ∷ 0x06 ∷ block ∷ payload) in
      (state ≡ 0) × (count ≡ 0) × (written events ≡ payload)
unfolding simulate simulate_service_byte dispatch
transfer_completes n block c payload lo hi b h =
    let rest =
      payload-simulate payload (less_one n) (less_one (less_one n)) refl (omega arith)
        (ground arith) in
    ground (arith, rest)
