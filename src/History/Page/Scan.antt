-- ===== src/History/Page/Scan.antt =====
-- components/smoker_platform/src/history_support.cpp: a page is read back up to its last whole record.
use smoker_firmware.Common.{
  drop, ℕ, zero, suc, ◌+◌, ◌-◌, ◌^◌, ◌≤◌, ◌<◌, ◌≡◌, ◌≢◌, ◌⊎◌, inl, inr, refl, sym, ap, ◌∙◌, List,
  [], ◌∷◌, ◌++◌, All, map, true, false, not, ◌||◌, Bool-cases, none, some, arith, if◌then◌else◌,
  ==_iff, ltb, length, take, length-append,
}
use smoker_firmware.History.{ObservationKind, Observation}
use smoker_firmware.History.Bytes.{Bytes, put}
use smoker_firmware.History.Codec.{encode_observation, decode_observation}
use smoker_firmware.History.Codec.RoundTrip.{
  IsStorable, stored, decode_observation-encode_observation,
}
use smoker_firmware.History.Page.{
  commit_marker, record_header_bytes, crc32, get, kind_number, kind_of, header_front, header_bytes,
  is_record_header, is_erased, payload_size, payload_at, decoded_at, blank_observation,
  new_observation, scan_records, read_records,
}
use smoker_firmware.History.Page.Header.{record_with, IsHeaderOf, record_with-IsHeaderOf}

-- An observation that `append_assigned` puts into a page.
pub record IsRecord (o : Observation) : Type 0 where
  pub storable : IsStorable o
  pub sequence : o.sequence < 2 ^ 32
  pub history_id : o.history_id < 2 ^ 64
  pub small : length (encode_observation o) < 2 ^ 16

abbrev pub size_of : Observation → ℕ
size_of o = record_header_bytes + length (encode_observation o)

abbrev pub total_size : List Observation → ℕ
total_size [] = 0
total_size (o ∷ os) = size_of o + total_size os

-- Records one behind the other, and then other bytes.
abbrev pub records_with : List Observation → Bytes → Bytes
records_with [] tail = tail
records_with (o ∷ os) tail = record_with o (encode_observation o) (records_with os tail)

-- What is read back: all but the start of the timer.
abbrev pub restored : Observation → Observation
restored o = record o { timer = record (o.timer) { started_at = none } }

-- The bytes behind the records: too few for a header, erased, or without the commit marker.
abbrev pub IsOpen : Bytes → Type 0
IsOpen tail =
    (length tail < record_header_bytes)
    ⊎ ((is_erased tail ≡ true) ⊎ (get 4 tail 36 ≢ commit_marker))

pub take-append : (xs ys : Bytes) → take (length xs) (xs ++ ys) ≡ xs
take-append [] ys = refl
take-append (x ∷ xs) ys = ap (◌∷◌ x) (take-append xs ys)

pub drop-append : (xs ys : Bytes) → drop (length xs) (xs ++ ys) ≡ ys
drop-append [] ys = refl
drop-append (x ∷ xs) ys = drop-append xs ys

drop-nil : (n : ℕ) → drop {A = ℕ} n [] ≡ []
drop-nil zero = refl
drop-nil (suc n) = refl

pub drop-add : (a b : ℕ) (bs : Bytes) → drop (a + b) bs ≡ drop b (drop a bs)
drop-add zero b bs = ap (λ n. drop n bs) (omega arith)
drop-add (suc a) b [] = drop-nil (suc a + b) ∙ sym (drop-nil b)
drop-add (suc a) b (x ∷ bs) =
    ap (λ n. drop n (x ∷ bs)) {y = suc (a + b)} (omega arith) ∙ drop-add a b bs

drop-record_with :
    (o : Observation) (payload rest : Bytes)
    → drop record_header_bytes (record_with o payload rest) ≡ payload ++ rest
unfolding header_bytes header_front put
drop-record_with o payload rest = refl

pub length-record_with :
    (o : Observation) (payload rest : Bytes)
    → length (record_with o payload rest) ≡ record_header_bytes + length payload + length rest
unfolding header_bytes header_front put
length-record_with o payload rest = omega (arith, length-append payload rest)

is_erased-record_with :
    (o : Observation) (payload rest : Bytes) → is_erased (record_with o payload rest) ≡ false
unfolding header_bytes header_front put
is_erased-record_with o payload rest = refl

kind_of-kind_number : (k : ObservationKind) → kind_of (kind_number k) ≡ k
kind_of-kind_number ObservationKind.start = refl
kind_of-kind_number ObservationKind.sample = refl
kind_of-kind_number ObservationKind.change = refl
kind_of-kind_number ObservationKind.end = refl

-- A round of the loops at a good record of `n` bytes of payload, with `rest` behind it.
scan_step :
    (fuel cursor n : ℕ) (bytes rest : Bytes) (o : Observation)
    → (ltb (length bytes) record_header_bytes || is_erased bytes) ≡ false
    → (not (is_record_header bytes)
        || ltb (length bytes) (record_header_bytes + payload_size bytes))
      ≡ false
    → decoded_at bytes new_observation ≡ some o
    → drop (record_header_bytes + payload_size bytes) bytes ≡ rest
    → payload_size bytes ≡ n
    → scan_records (suc fuel) cursor bytes
      ≡ scan_records fuel (cursor + (record_header_bytes + n)) rest
unfolding scan_records
scan_step fuel cursor n bytes rest o a b c d e = rw (a, b, c, d, e) refl

read_step :
    (fuel remaining n : ℕ) (bytes rest : Bytes) (o : Observation)
    → ltb remaining record_header_bytes ≡ false
    → (not (is_record_header bytes) || ltb remaining (record_header_bytes + payload_size bytes))
      ≡ false
    → decoded_at bytes (blank_observation new_observation bytes) ≡ some o
    → drop (record_header_bytes + payload_size bytes) bytes ≡ rest
    → payload_size bytes ≡ n
    → {os : List Observation}
    → read_records fuel (remaining - (record_header_bytes + n)) rest ≡ some os
    → read_records (suc fuel) remaining bytes ≡ some (o ∷ os)
unfolding read_records
read_step fuel remaining n bytes rest o a b c d e g = rw (a, b, c, d, e, g) refl

-- A record with its payload, at the cursor.
module _ (o : Observation) (rest : Bytes) (v : IsRecord o) where
  abbrev at_record : Bytes
  at_record = record_with o (encode_observation o) rest

  header : IsHeaderOf o (encode_observation o) at_record
  header = record_with-IsHeaderOf o (encode_observation o) rest v.small v.sequence v.history_id

  payload_at_record : payload_at at_record ≡ encode_observation o
  payload_at_record =
      ap (λ n. take n (drop record_header_bytes at_record)) header.size
      ∙ ap (take (length (encode_observation o))) (drop-record_with o (encode_observation o) rest)
      ∙ take-append (encode_observation o) rest

  decoded_at_record : (prior : Observation) → decoded_at at_record prior ≡ some (stored prior o)
  unfolding decoded_at
  decoded_at_record prior =
      ap (λ b. if b then decode_observation (payload_at at_record) prior else none) {y = true}
        ((==_iff _ _).1 (ap crc32 payload_at_record ∙ sym header.checksum))
      ∙ ap (λ p. decode_observation p prior) payload_at_record
      ∙ decode_observation-encode_observation prior o v.storable

  behind_record : drop (record_header_bytes + payload_size at_record) at_record ≡ rest
  behind_record =
      drop-add record_header_bytes (payload_size at_record) at_record
      ∙ ap (drop (payload_size at_record)) (drop-record_with o (encode_observation o) rest)
      ∙ ap (λ n. drop n (encode_observation o ++ rest)) header.size
      ∙ drop-append (encode_observation o) rest

  long : length at_record ≡ size_of o + length rest
  long = omega (arith, length-record_with o (encode_observation o) rest)

  good_length :
      (n : ℕ)
      → size_of o ≤ n
      → (not (is_record_header at_record) || ltb n (record_header_bytes + payload_size at_record))
        ≡ false
  good_length n h =
      ap (λ b. not b || ltb n (record_header_bytes + payload_size at_record)) header.good
      ∙ ap (λ k. ltb n (record_header_bytes + k)) header.size
      ∙ ground (arith, h)

  scan-record :
      (fuel cursor : ℕ)
      → scan_records (suc fuel) cursor at_record ≡ scan_records fuel (cursor + size_of o) rest
  scan-record fuel cursor =
      scan_step fuel cursor (length (encode_observation o)) at_record rest
        (stored new_observation o)
        (ap (◌||◌ (ltb (length at_record) record_header_bytes))
            (is_erased-record_with o (encode_observation o) rest)
          ∙ ground (arith, long))
        (good_length (length at_record) (omega (arith, long))) (decoded_at_record new_observation)
        behind_record header.size

  blank_stored : stored (blank_observation new_observation at_record) o ≡ restored o
  blank_stored = λ i. record (restored o) {
    kind = (ap kind_of header.kind ∙ kind_of-kind_number o.kind) i;
    sequence = header.sequence i;
    history_id = header.history_id i;
  }

  read-record :
      (fuel remaining : ℕ) {os : List Observation}
      → size_of o ≤ remaining
      → read_records fuel (remaining - size_of o) rest ≡ some os
      → read_records (suc fuel) remaining at_record ≡ some (restored o ∷ os)
  read-record fuel remaining h g =
      read_step fuel remaining (length (encode_observation o)) at_record rest (restored o)
        (ground (arith, h)) (good_length remaining h)
        (decoded_at_record (blank_observation new_observation at_record) ∙ ap some blank_stored)
        behind_record header.size g

unmarked : (tail : Bytes) → get 4 tail 36 ≢ commit_marker → is_record_header tail ≡ false
unfolding is_record_header
unmarked tail h = ground (arith, h)

no_header :
    (tail : Bytes)
    → IsOpen tail
    → (ltb (length tail) record_header_bytes || is_erased tail) ≡ false
    → is_record_header tail ≡ false
no_header tail (inl short) more = absurd (ground (arith, short, more))
no_header tail (inr (inl erased)) more = absurd (ground (arith, erased, more))
no_header tail (inr (inr open_)) more = unmarked tail open_

-- Bytes without a whole record end the loop where they start.
scan-open :
    (fuel cursor : ℕ) (tail : Bytes) → IsOpen tail → (scan_records fuel cursor tail).0 ≡ cursor
unfolding scan_records
scan-open zero cursor tail v = refl
scan-open (suc fuel) cursor tail v =
    elim (Bool-cases (ltb (length tail) record_header_bytes || is_erased tail)) [
      | inl stop ↦ rw stop refl
      | inr more ↦ rw (more, no_header tail v more) refl
    ]

pub total-length :
    (os : List Observation) (tail : Bytes)
    → length (records_with os tail) ≡ total_size os + length tail
total-length [] tail = omega arith
total-length (o ∷ os) tail = omega (
  arith,
  length-record_with o (encode_observation o) (records_with os tail),
  total-length os tail,
)

pub scan-records_with :
    (os : List Observation) (tail : Bytes) (fuel cursor : ℕ)
    → All IsRecord os
    → IsOpen tail
    → length os ≤ fuel
    → (scan_records fuel cursor (records_with os tail)).0 ≡ cursor + total_size os
scan-records_with [] tail fuel cursor v h f = scan-open fuel cursor tail h ∙ omega arith
scan-records_with (o ∷ os) tail zero cursor v h f = absurd (omega (arith, f))
scan-records_with (o ∷ os) tail (suc fuel) cursor v h f =
    ap (λ r. r.0) (scan-record o (records_with os tail) v.0 fuel cursor)
    ∙ scan-records_with os tail fuel (cursor + size_of o) v.1 h (omega (arith, f))
    ∙ omega arith

pub read-records_with :
    (os : List Observation) (tail : Bytes) (fuel : ℕ)
    → All IsRecord os
    → length os ≤ fuel
    → read_records fuel (total_size os) (records_with os tail) ≡ some (map restored os)
unfolding read_records
read-records_with [] tail zero v f = refl
read-records_with [] tail (suc fuel) v f = refl
read-records_with (o ∷ os) tail zero v f = absurd (omega (arith, f))
read-records_with (o ∷ os) tail (suc fuel) v f =
    read-record o (records_with os tail) v.0 fuel (total_size (o ∷ os)) (omega arith) (
      ap (λ n. read_records fuel n (records_with os tail)) {y = total_size os} (omega arith)
      ∙ read-records_with os tail fuel v.1 (omega (arith, f)))
