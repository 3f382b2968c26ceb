-- ===== src/U17/Capture.antt =====
-- The capture files of dyaxis/host/u17_host_tool.py: `CaptureWriter`, `read_capture` and
-- `decode_capture`.
pub mod RoundTrip
pub mod Total
pub mod Decode
use Prim.Native.String.{String}
use sc_adat_appliance.Base.{
  ℕ, ◌+◌, ◌-◌, ◌^◌, zero, suc, true, false, not, ◌||◌, List, [], ◌∷◌, ◌++◌, length, slice, ltb, leb,
  ◌==◌, if◌then◌else◌,
}
use sc_adat_appliance.Base.Bytes.{same, from_big, to_big}
use sc_adat_appliance.Base.Result.{Result, ok, err, raise_if, ◌>>=◌, ◌>>◌}
use sc_adat_appliance.U17.Service.{Event, simulate}

-- The texts of a direction; any text but "RX" and "TX" is `other`.
pub data Direction : Type 0 where
  rx tx : Direction
  other : String → Direction

pub record Record : Type 0 where
  pub timestamp : ℕ
  pub direction : Direction
  pub payload : List ℕ

-- `struct_error` is `struct.pack` out of range. `out_of_fuel` is the model's own.
pub data CaptureError : Type 0 where
  bad_direction : String → CaptureError
  struct_error not_a_capture truncated_header invalid_record out_of_fuel : CaptureError

-- `b"U17CAP1\n"`
abbrev pub magic : List ℕ
magic = 0x55 ∷ 0x31 ∷ 0x37 ∷ 0x43 ∷ 0x41 ∷ 0x50 ∷ 0x31 ∷ 0x0A ∷ []

-- `struct.pack(">QBI", stamp, direction_byte, len(data))` in front of the bytes.
unfoldable pub encode : ℕ → ℕ → List ℕ → List ℕ
encode stamp direction_byte payload =
    to_big 8 stamp ++ (direction_byte ∷ (to_big 4 (length payload) ++ payload))

abbrev pub direction_byte : Direction → Result CaptureError ℕ
direction_byte rx = ok 0
direction_byte tx = ok 1
direction_byte (other name) = err (bad_direction name)

abbrev pub append_record : Record → ℕ → List ℕ → Result CaptureError (List ℕ)
append_record r byte file = do
  raise_if (leb (2 ^ 64) r.timestamp || leb (2 ^ 32) (length r.payload)) struct_error
  ok (file ++ encode r.timestamp byte r.payload)

-- `CaptureWriter.write`: the file's bytes after the call.
unfoldable pub write : Record → List ℕ → Result CaptureError (List ℕ)
write r file = direction_byte r.direction >>= λ byte.
    if length r.payload == 0 then ok file else append_record r byte file

unfoldable pub write_all : List Record → List ℕ → Result CaptureError (List ℕ)
write_all [] file = ok file
write_all (r ∷ rs) file = write r file >>= λ file'. write_all rs file'

-- The file of a session: `__init__` writes the magic.
unfoldable pub record_session : List Record → Result CaptureError (List ℕ)
record_session rs = write_all rs magic

-- One round of the loop in `read_capture`: the record at an offset, and the next offset.
unfoldable pub read_one : List ℕ → ℕ → Result CaptureError (Record × ℕ)
read_one file offset =
    if ltb (length file - offset) 13
    then err truncated_header
    else let timestamp = from_big 0 (slice offset (offset + 8) file) in
      let direction = from_big 0 (slice (offset + 8) (offset + 9) file) in
      let size = from_big 0 (slice (offset + 9) (offset + 13) file) in
      let next = offset + 13 + size in
      if not (direction == 0 || direction == 1) || ltb (length file) next
      then err invalid_record
      else ok (
        record {
          timestamp = timestamp;
          direction = if direction == 0 then rx else tx;
          payload = slice (offset + 13) next file;
        },
        next,
      )

-- `while offset < len(data)`, on fuel.
unfoldable pub read_from : ℕ → List ℕ → ℕ → List Record → Result CaptureError (List Record)
read_from zero file offset records = err out_of_fuel
read_from (suc fuel) file offset records = elim (ltb offset (length file)) [
  | false ↦ ok records
  | true ↦ read_one file offset >>= λ read. read_from fuel file read.1 (records ++ read.0 ∷ [])
]

-- Every record takes 13 bytes at least, so the file's length is fuel enough.
unfoldable pub read_capture : List ℕ → Result CaptureError (List Record)
read_capture file =
    if not (same (slice 0 8 file) magic)
    then err not_a_capture
    else read_from (length file) file 8 []

-- The service events of `decode_capture` with the stamp and the index that it adds.
pub record Stamped : Type 0 where
  pub event : Event
  pub timestamp_ns : ℕ
  pub byte_index : ℕ

abbrev pub stamp_all : ℕ → ℕ → List Event → List Stamped
stamp_all timestamp index [] = []
stamp_all timestamp index (e ∷ es) =
    record { event = e; timestamp_ns = timestamp; byte_index = index }
    ∷ stamp_all timestamp (suc index) es

-- One record: only received bytes reach the state machine.
unfoldable pub decode_record : ℕ → ℕ → Direction → ℕ → List ℕ → List Stamped × ℕ × ℕ
decode_record state count rx timestamp payload =
    let (events, after, next_count) = simulate state count payload in
    (stamp_all timestamp 0 events, after, next_count)
decode_record state count tx timestamp payload = ([], state, count)
decode_record state count (other name) timestamp payload = ([], state, count)

unfoldable pub decode_records : ℕ → ℕ → List Record → List Stamped
decode_records state count [] = []
decode_records state count (r ∷ rs) =
    let (stamped, after, next_count) =
      decode_record state count r.direction r.timestamp r.payload in
    stamped ++ decode_records after next_count rs

unfoldable pub decode_capture : List ℕ → Result CaptureError (List Stamped)
decode_capture file = do records ← read_capture file; ok (decode_records 0 0 records)
