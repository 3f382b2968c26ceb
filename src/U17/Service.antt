-- ===== src/U17/Service.antt =====
-- `simulate_service_byte` of dyaxis/host/u17_host_tool.py: the ROM's dispatch on one byte.
pub mod Transfer
use sc_adat_appliance.Base.{ℕ, ◌+◌, ◌%◌, ◌&&◌, List, [], ◌∷◌, leb, ltb, ◌==◌, if◌then◌else◌}

-- The texts of "action".
pub data Action : Type 0 where
  ignored arm store call_32a9 clear_active accept_count reject_count : Action
  launch early_terminal reject_block : Action
  select_block : ℕ → Action
  write_last write_byte cleanup_done cleanup_step : Action

pub record Event : Type 0 where
  pub before : ℕ
  pub service_byte : ℕ
  pub action : Action
  pub after : ℕ
  pub count : ℕ

-- `(next_count - 1) & 0xFF`
abbrev pub less_one : ℕ → ℕ
less_one count = (count + 255) % 256

-- Action, next state and next count, by the chain of tests on the state.
unfoldable pub dispatch : ℕ → ℕ → ℕ → Action × ℕ × ℕ
dispatch state value count =
    if state == 0 && value == 0x02
    then (arm, 1, count)
    else if state == 1
    then (store, 2, value)
    else if state == 2 && value == 0x01
    then ((if count == 0 then call_32a9 else clear_active), 0, count)
    else if state == 2 && value == 0x06
    then (if leb 1 count && leb count 0x80
        then (accept_count, 0x28, count)
        else (reject_count, 0, count))
    else if state == 0x28
    then (if value == 0xFF
        then (if less_one count == 0
            then (launch, 0, less_one count)
            else (early_terminal, 0x5A, less_one count))
        else if ltb value 0xFC
        then (select_block value, 0x29, less_one count)
        else (reject_block, 0x5A, less_one count))
    else if state == 0x29
    then (if less_one count == 0
        then (write_last, 0, less_one count)
        else (write_byte, 0x29, less_one count))
    else if state == 0x5A
    then (if less_one count == 0
        then (cleanup_done, 0, less_one count)
        else (cleanup_step, 0x5A, less_one count))
    else (ignored, state, count)

unfoldable pub simulate_service_byte : ℕ → ℕ → ℕ → Event × ℕ × ℕ
simulate_service_byte state value count =
    let (action, after, next_count) = dispatch state value count in
    (
      record {
        before = state;
        service_byte = value;
        action = action;
        after = after;
        count = next_count;
      },
      after,
      next_count,
    )

-- The loop of `decode_capture` over the bytes of one record.
unfoldable pub simulate : ℕ → ℕ → List ℕ → List Event × ℕ × ℕ
simulate state count [] = ([], state, count)
simulate state count (value ∷ rest) =
    let (event, after, next_count) = simulate_service_byte state value count in
    let (events, last, last_count) = simulate after next_count rest in
    (event ∷ events, last, last_count)
