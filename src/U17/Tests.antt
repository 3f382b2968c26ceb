-- ===== src/U17/Tests.antt =====
-- Runs of the U17 tools, and the theorems about them at concrete inputs.
use sc_adat_appliance.Base.{
  ℕ, ◌≡◌, ◌≢◌, ◌++◌, refl, some, List, [], ◌∷◌, arith, length, drop, take, slice, replicate,
  length-replicate, All-replicate, ◌==◌, if◌then◌else◌,
}
use sc_adat_appliance.Base.Bytes.{AllBytes, IsByte, same, sum, to_big}
use sc_adat_appliance.Base.Hex.{hex_upper}
use sc_adat_appliance.Base.Result.{ok, err}
use sc_adat_appliance.Base.Text.{codes}
use sc_adat_appliance.U17.Ucsim.{ihex, projected_path}
use sc_adat_appliance.U17.Ucsim.Loads.{load_hex, load_hex-ihex}
use sc_adat_appliance.U17.Ucsim.Projection.{projected_path-startup}
use sc_adat_appliance.U17.Image.{build, validate, checksum}
use sc_adat_appliance.U17.Image.Build.{validate-build}
use sc_adat_appliance.U17.Emulator.{
  Checksum, Report, checksum_037c, startup_validation, marker_wait, checksum_good,
}
use sc_adat_appliance.U17.Emulator.Startup.{expected_path, startup-final_path, startup-build}
use sc_adat_appliance.U17.Independent.{complemented_sum}
use sc_adat_appliance.U17.Independent.Agreement.{transcriptions_agree}
use sc_adat_appliance.U17.Loader.{LoadPlan, make_plan}
use sc_adat_appliance.U17.Loader.Cover.{joined, Laid, make_plan-Laid}
use sc_adat_appliance.U17.Service.{simulate}
use sc_adat_appliance.U17.Service.Transfer.{IsService, written, transfer_completes}
use sc_adat_appliance.U17.Capture.{
  Record, Stamped, rx, tx, encode, direction_byte, write, write_all, record_session, read_one,
  read_from, read_capture, decode_capture, magic, out_of_fuel,
}
use sc_adat_appliance.U17.Capture.RoundTrip.{read_capture-record_session}
use sc_adat_appliance.U17.Capture.Total.{read_capture_total}
use sc_adat_appliance.U17.Capture.Decode.{events_of, decode_capture-record_session}

abbrev payload : List ℕ
payload = 0x02 ∷ 0x80 ∷ 0x00 ∷ []

abbrev template : List ℕ
template = replicate 0x8000 0xFF

template_size : length template ≡ 0x8000
template_size = length-replicate 0x8000 0xFF

template-AllBytes : AllBytes template
template-AllBytes = All-replicate IsByte 0x8000 0xFF (omega arith)

validate-build_example :
    (image : List ℕ) × (build payload template ≡ ok image)
    × (validate image ≡ [])
    × (slice 0 3 image ≡ payload)
    × (drop 0x7E00 image ≡ drop 0x7E00 template)
validate-build_example = validate-build payload template (omega arith) template_size

startup-final_path_example :
    (r : Report) × (startup_validation template ≡ ok r) × (r.final_path ≡ expected_path template)
startup-final_path_example = startup-final_path template template_size template-AllBytes

startup-build_example :
    (image : List ℕ) × (r : Report) × (build payload template ≡ ok image)
    × (startup_validation image ≡ ok r)
    × (r.final_path ≡ (if checksum image == 0xAA55 then marker_wait else checksum_good))
startup-build_example =
    startup-build payload template (omega arith) template_size (omega arith) template-AllBytes

transcriptions_agree_example :
    (c : Checksum) × (checksum_037c template ≡ ok c)
    × (complemented_sum template ≡ ok c.complement)
    × (c.complement ≡ checksum template)
transcriptions_agree_example = transcriptions_agree template template_size template-AllBytes

make_plan-Laid_example :
    (plan : LoadPlan) × (make_plan payload 0x80 ≡ ok plan)
    × (joined plan.blocks ≡ payload)
    × Laid 0 0x8000 plan.blocks
make_plan-Laid_example = make_plan-Laid payload (omega arith) (omega arith)

block_count-IsService : IsService 0x28 3
block_count-IsService = ground arith

transfer_completes_example :
    let (events, state, count) = simulate 0 0 (0x02 ∷ 3 ∷ 0x06 ∷ 0x10 ∷ 0xAB ∷ 0xCD ∷ []) in
    (state ≡ 0) × (count ≡ 0) × (written events ≡ 0xAB ∷ 0xCD ∷ [])
transfer_completes_example =
    transfer_completes 3 0x10 0 (0xAB ∷ 0xCD ∷ []) (omega arith) (omega arith) (omega arith) refl

abbrev session : List Record
session =
    record { timestamp = 5; direction = rx; payload = 0x02 ∷ [] }
    ∷ record { timestamp = 6; direction = tx; payload = [] }
    ∷ record { timestamp = 7; direction = tx; payload = 0x03 ∷ [] }
    ∷ record { timestamp = 8; direction = rx; payload = 0x01 ∷ 0x06 ∷ [] }
    ∷ []

abbrev session_file : List ℕ
session_file =
    0x55 ∷ 0x31 ∷ 0x37 ∷ 0x43 ∷ 0x41 ∷ 0x50 ∷ 0x31 ∷ 0x0A ∷ 0 ∷ 0 ∷ 0 ∷ 0 ∷ 0 ∷ 0 ∷ 0 ∷ 5 ∷ 0 ∷ 0
    ∷ 0 ∷ 0 ∷ 1 ∷ 0x02 ∷ 0 ∷ 0 ∷ 0 ∷ 0 ∷ 0 ∷ 0 ∷ 0 ∷ 7 ∷ 1 ∷ 0 ∷ 0 ∷ 0 ∷ 1 ∷ 0x03 ∷ 0 ∷ 0 ∷ 0 ∷ 0
    ∷ 0 ∷ 0 ∷ 0 ∷ 8 ∷ 0 ∷ 0 ∷ 0 ∷ 0 ∷ 2 ∷ 0x01 ∷ 0x06 ∷ []

session_written : record_session session ≡ ok session_file
unfolding record_session write_all write encode to_big
session_written = refl

read_capture-record_session_example :
    read_capture session_file
    ≡ ok (
        record { timestamp = 5; direction = rx; payload = 0x02 ∷ [] }
        ∷ record { timestamp = 7; direction = tx; payload = 0x03 ∷ [] }
        ∷ record { timestamp = 8; direction = rx; payload = 0x01 ∷ 0x06 ∷ [] }
        ∷ [])
read_capture-record_session_example =
    read_capture-record_session session session_file session_written

decode_capture-record_session_example :
    (ss : List Stamped) × (decode_capture session_file ≡ ok ss)
    × (events_of ss ≡ (simulate 0 0 (0x02 ∷ 0x01 ∷ 0x06 ∷ [])).0)
decode_capture-record_session_example =
    decode_capture-record_session session session_file session_written

-- A header that is cut off is an error, not a silent end.
truncated : read_capture (take 12 session_file) ≡ err sc_adat_appliance.U17.Capture.truncated_header
unfolding read_capture read_from read_one slice take drop same
truncated = refl

-- A file that ends inside a record.
read_capture_total_example : read_capture (magic ++ 0 ∷ 1 ∷ []) ≢ err out_of_fuel
read_capture_total_example = read_capture_total (magic ++ 0 ∷ 1 ∷ [])

projected_path-startup_example :
    (r : Report) × (startup_validation template ≡ ok r) × (projected_path template ≡ r.final_path)
projected_path-startup_example = projected_path-startup template template_size template-AllBytes

-- Two records: sixteen bytes and two.
abbrev short_image : List ℕ
short_image =
    1 ∷ 2 ∷ 3 ∷ 4 ∷ 5 ∷ 6 ∷ 7 ∷ 8 ∷ 9 ∷ 10 ∷ 11 ∷ 12 ∷ 13 ∷ 14 ∷ 15 ∷ 16 ∷ 0xFE ∷ 0xFF ∷ []

ihex-short_image :
    ihex short_image
    ≡ codes ":100000000102030405060708090A0B0C0D0E0F1068"
      ++ (10 ∷ (codes ":02001000FEFFF1" ++ (10 ∷ (codes ":00000001FF" ++ 10 ∷ []))))
unfolding ihex sum take drop hex_upper
ihex-short_image = refl

load_hex-ihex_example : load_hex (ihex short_image) ≡ some short_image
load_hex-ihex_example = load_hex-ihex short_image (omega arith) (omega arith)
