-- ===== src/History/Page.antt =====
-- components/smoker_platform/src/history_support.cpp: the bytes of a page and of its records.
pub mod Header
pub mod Scan
pub mod Reads
pub mod Append
use Prim.Native.Nat.{bit_xor, bit_and}
use smoker_firmware.Common.{
  drop, ℕ, zero, suc, ◌+◌, ◌-◌, ◌*◌, ◌/◌, ◌%◌, ◌^◌, List, [], ◌∷◌, ◌++◌, Bool, true, false, not,
  ◌&&◌, ◌||◌, Option, none, some, if◌then◌else◌, ◌==◌, leb, ltb, length, take,
}
use smoker_firmware.Common.Int.{pos}
use smoker_firmware.Core.Domain.{SessionStatus, StopReason, off, new_timer}
use smoker_firmware.History.{ObservationKind, Observation}
use smoker_firmware.History.Bytes.{Bytes, put}
use smoker_firmware.History.Codec.{encode_observation, decode_observation}

abbrev pub page_magic : ℕ
page_magic = 0x47505348

abbrev pub record_magic : ℕ
record_magic = 0x43455248

abbrev pub format_version : ℕ
format_version = 1

abbrev pub commit_marker : ℕ
commit_marker = 0x54494d43

abbrev pub history_page_bytes : ℕ
history_page_bytes = 4096

abbrev pub page_header_bytes : ℕ
page_header_bytes = 40

abbrev pub record_header_bytes : ℕ
record_header_bytes = 40

-- One bit of the checksum.
unfoldable pub crc_bit : ℕ → ℕ
crc_bit crc = bit_xor (crc / 2) (if crc % 2 == 1 then 0xedb88320 else 0)

unfoldable pub crc_byte : ℕ → ℕ → ℕ
unfolding crc_bit
crc_byte crc byte =
    crc_bit (crc_bit (crc_bit (crc_bit (crc_bit (crc_bit (crc_bit (crc_bit (bit_xor crc byte))))))))

unfoldable pub crc_from : ℕ → Bytes → ℕ
unfolding crc_byte
crc_from crc [] = crc
crc_from crc (b ∷ bs) = crc_from (crc_byte crc b) bs

-- `~crc` of 32 bits
unfoldable pub crc32 : Bytes → ℕ
unfolding crc_from
crc32 bs = 2 ^ 32 - 1 - crc_from 0xffffffff bs

-- `get` of an unsigned value of `n` bytes at the front of the bytes.
unfoldable pub get_front : ℕ → Bytes → ℕ
get_front zero bs = 0
get_front (suc n) [] = 0
get_front (suc n) (b ∷ bs) = b + 256 * get_front n bs

-- `get<Integer>(bytes, offset)`
abbrev pub get : ℕ → Bytes → ℕ → ℕ
get n bytes offset = get_front n (drop offset bytes)

abbrev pub kind_number : ObservationKind → ℕ
kind_number ObservationKind.start = 0
kind_number ObservationKind.sample = 1
kind_number ObservationKind.change = 2
kind_number ObservationKind.end = 3

abbrev pub kind_of : ℕ → ObservationKind
kind_of n =
    if n == 0
    then ObservationKind.start
    else if n == 1
    then ObservationKind.sample
    else if n == 2
    then ObservationKind.change
    else ObservationKind.end

-- The first 28 bytes of a record's header; the bytes that the source leaves are 0xFF.
unfoldable pub header_front : Observation → Bytes → Bytes
header_front o payload =
    put 4 record_magic
    ++ (put 2 format_version
        ++ (put 1 (kind_number o.kind)
            ++ (0xff ∷ []
                ++ (put 2 (length payload % 2 ^ 16)
                    ++ (put 2 record_header_bytes
                        ++ (put 4 o.sequence ++ (put 8 o.history_id ++ put 4 (crc32 payload))))))))

-- The header up to the commit marker: 36 bytes.
unfoldable pub header_bytes : Observation → Bytes → Bytes
unfolding header_front
header_bytes o payload =
    header_front o payload
    ++ (put 4 (crc32 (header_front o payload)) ++ (0xff ∷ 0xff ∷ 0xff ∷ 0xff ∷ []))

-- The tests on a record's header that `scan_page` and `read_page_records` share, negated.
unfoldable pub is_record_header : Bytes → Bool
is_record_header bytes =
    get 4 bytes 0 == record_magic
    && (get 2 bytes 4 == format_version
        && (leb (get 1 bytes 6) 3
            && (get 2 bytes 10 == record_header_bytes
                && (get 4 bytes 36 == commit_marker && get 4 bytes 28 == crc32 (take 28 bytes)))))

abbrev pub is_erased : Bytes → Bool
is_erased [] = true
is_erased (b ∷ bs) = b == 0xff && is_erased bs

abbrev pub blank_observation : Observation → Bytes → Observation
blank_observation o header = record o {
  kind = kind_of (get 1 header 6);
  sequence = get 4 header 12;
  history_id = get 8 header 16;
}

-- `HistoryObservation{}`
abbrev pub new_observation : Observation
new_observation = record {
  kind = ObservationKind.sample;
  history_id = 0;
  sequence = 0;
  application_session_id = 0;
  session_status = SessionStatus.idle;
  stop_reason = StopReason.not_stopped;
  session_elapsed = pos 0;
  unix_utc_seconds = none;
  chamber_temperature = none;
  chamber_target = none;
  heater_demand = off;
  timer = new_timer;
  probes = [];
  alarms = [];
  fault = none;
}

abbrev pub payload_size : Bytes → ℕ
payload_size record_at = get 2 record_at 8

abbrev pub payload_at : Bytes → Bytes
payload_at record_at = take (payload_size record_at) (drop record_header_bytes record_at)

-- `crc32(payload) == ...` and `decode_observation`: the observation, or `none` where one fails.
unfoldable pub decoded_at : Bytes → Observation → Option Observation
decoded_at record_at o =
    if crc32 (payload_at record_at) == get 4 record_at 24
    then decode_observation (payload_at record_at) o
    else none

-- The loop of `scan_page` over the bytes from the cursor on: the end of the last good record, and
-- whether it stopped at a bad one.
unfoldable pub scan_records : ℕ → ℕ → Bytes → ℕ × Bool
unfolding decoded_at
scan_records zero cursor bytes = (cursor, false)
scan_records (suc fuel) cursor bytes =
    let size = record_header_bytes + payload_size bytes in
    let rest = scan_records fuel (cursor + size) (drop size bytes) in
    if ltb (length bytes) record_header_bytes || is_erased bytes
    then (cursor, false)
    else if not (is_record_header bytes) || ltb (length bytes) size
    then (cursor, true)
    else elim (decoded_at bytes new_observation) [ none ↦ (cursor, true) | some o ↦ rest ]

-- The loop of `read_page_records`: the records in the next `remaining` bytes, up to `page.used`.
unfoldable pub read_records : ℕ → ℕ → Bytes → Option (List Observation)
unfolding decoded_at
read_records zero remaining bytes = some []
read_records (suc fuel) remaining bytes =
    let size = record_header_bytes + payload_size bytes in
    let rest = read_records fuel (remaining - size) (drop size bytes) in
    if ltb remaining record_header_bytes
    then some []
    else if not (is_record_header bytes) || ltb remaining size
    then none
    else elim (decoded_at bytes (blank_observation new_observation bytes)) [
      | none ↦ none
      | some o ↦ elim rest [ none ↦ none | some os ↦ some (o ∷ os) ]
    ]

-- `a && b` of two writes: the second is made where the first succeeds.
abbrev pub and_then : (Bytes → Bool × Bytes) → Bool × Bytes → Bool × Bytes
and_then write_next (true, page) = write_next page
and_then write_next (false, page) = (false, page)

-- The three writes of `append_assigned` to a page of which `used` bytes are in use: the header, the
-- payload behind the place of the marker, and at last the marker. `write` is `IHistoryFlash::write`
-- at an offset in the page: its answer, and what the page holds afterwards.
unfoldable pub write_record :
    (ℕ → Bytes → Bytes → Bool × Bytes) → Observation → ℕ → Bytes → Bool × Bytes
unfolding header_bytes
write_record write o used page =
    let payload = encode_observation o in
    and_then (write (used + 36) (put 4 commit_marker)) (
      and_then (write (used + record_header_bytes) payload)
        (write used (header_bytes o payload) page))

-- The records that `scan_page` and `read_page_records` find in a whole page; no record has less than
-- one byte, so the page's length is fuel enough.
unfoldable pub scan_page_records : Bytes → ℕ × Bool
unfolding scan_records
scan_page_records page = scan_records (length page) page_header_bytes (drop page_header_bytes page)

unfoldable pub read_page_records : ℕ → Bytes → Option (List Observation)
unfolding read_records
read_page_records used page =
    read_records (length page) (used - page_header_bytes) (drop page_header_bytes page)
