-- ===== src/History/Page/Header.antt =====
-- components/smoker_platform/src/history_support.cpp: a record is recognised by its bytes.
use smoker_firmware.Common.{
  ◌^◌, ◌≤◌, ◌<◌, ◌≡◌, refl, ◌++◌, Bool, true, ◌&&◌, arith, ==_iff, length, take,
}
use smoker_firmware.History.{ObservationKind, Observation}
use smoker_firmware.History.Bytes.{Bytes, put}
use smoker_firmware.History.Page.{
  commit_marker, crc32, get_front, get, kind_number, header_front, header_bytes, is_record_header,
}

-- A record with a payload and more bytes behind it.
abbrev pub record_with : Observation → Bytes → Bytes → Bytes
record_with o payload rest = header_bytes o payload ++ (put 4 commit_marker ++ (payload ++ rest))

-- What the header says.
pub record IsHeaderOf (o : Observation) (payload bytes : Bytes) : Type 0 where
  pub good : is_record_header bytes ≡ true
  pub size : get 2 bytes 8 ≡ length payload
  pub checksum : get 4 bytes 24 ≡ crc32 payload
  pub kind : get 1 bytes 6 ≡ kind_number o.kind
  pub sequence : get 4 bytes 12 ≡ o.sequence
  pub history_id : get 8 bytes 16 ≡ o.history_id

crc32-lt : (bs : Bytes) → crc32 bs < 2 ^ 32
unfolding crc32
crc32-lt bs = omega arith

kind-le : (k : ObservationKind) → kind_number k ≤ 3
kind-le ObservationKind.start = omega arith
kind-le ObservationKind.sample = omega arith
kind-le ObservationKind.change = omega arith
kind-le ObservationKind.end = omega arith

and_true : {a b : Bool} → a ≡ true → b ≡ true → (a && b) ≡ true
and_true e h = rw (e, h) refl

-- Test by test: the magic number, the version, the kind, the header's size, the marker and the
-- checksum of the 28 bytes before it.
good_header :
    (o : Observation) (payload rest : Bytes) → is_record_header (record_with o payload rest) ≡ true
unfolding header_bytes header_front put is_record_header get_front
good_header o payload rest = and_true refl (
    and_true refl (
      and_true (ground (arith, kind-le o.kind)) (
        and_true refl (
          and_true refl (
            (==_iff _ (crc32 (take 28 (record_with o payload rest)))).1
              (omega (arith, crc32-lt)))))))

pub record_with-IsHeaderOf :
    (o : Observation) (payload rest : Bytes)
    → length payload < 2 ^ 16
    → o.sequence < 2 ^ 32
    → o.history_id < 2 ^ 64
    → IsHeaderOf o payload (record_with o payload rest)
unfolding header_bytes header_front put is_record_header get_front
record_with-IsHeaderOf o payload rest h s i = record {
  good = good_header o payload rest;
  size = omega (arith, h);
  checksum = omega (arith, crc32-lt payload);
  kind = omega (arith, kind-le o.kind);
  sequence = omega (arith, s);
  history_id = omega (arith, i);
}
