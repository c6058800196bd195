-- ===== src/History/Page/Reads.antt =====
-- components/smoker_platform/src/history_support.cpp: what a page reads as, with bytes of an unfinished
-- record behind its whole records.
use smoker_firmware.Common.{
  drop, ℕ, zero, suc, ◌+◌, ◌/◌, ◌≤◌, ◌≡◌, ◌≢◌, inr, refl, sym, ap, ◌∙◌, List, [], ◌∷◌, ◌++◌, All,
  map, some, arith, length, length-append,
}
use mathlib.Core.List.{append_assoc}
use smoker_firmware.History.{Observation}
use smoker_firmware.History.Bytes.{Bytes, put}
use smoker_firmware.History.Codec.{encode_observation}
use smoker_firmware.History.Page.{
  commit_marker, page_header_bytes, get_front, header_front, header_bytes, scan_records,
  read_records, scan_page_records, read_page_records,
}
use smoker_firmware.History.Page.Header.{record_with}
use smoker_firmware.History.Page.Scan.{
  IsRecord, total_size, records_with, restored, IsOpen, drop-append, total-length,
  scan-records_with, read-records_with,
}

-- A page whose header takes its 40 bytes, with these records found in it.
abbrev pub ReadsAs : Bytes → List Observation → Type 0
ReadsAs page os =
    ((scan_page_records page).0 ≡ page_header_bytes + total_size os)
    × (read_page_records (page_header_bytes + total_size os) page ≡ some (map restored os))

pub length-le-total_size : (os : List Observation) → length os ≤ total_size os
length-le-total_size [] = omega arith
length-le-total_size (o ∷ os) = omega (arith, length-le-total_size os)

-- A page reads as its whole records, whatever bytes without a marker stand behind them.
pub records_with-ReadsAs :
    (head : Bytes) (os : List Observation) (tail : Bytes)
    → length head ≡ page_header_bytes
    → All IsRecord os
    → IsOpen tail
    → ReadsAs (head ++ records_with os tail) os
unfolding scan_page_records read_page_records
records_with-ReadsAs head os tail h v open_ =
    let page = head ++ records_with os tail in
    let behind : drop page_header_bytes page ≡ records_with os tail =
      ap (λ n. drop n page) (sym h) ∙ drop-append head (records_with os tail) in
    let fuel : length os ≤ length page = omega (
      arith,
      length-append head (records_with os tail),
      total-length os tail,
      length-le-total_size os,
    ) in
    (
      ap (λ b. (scan_records (length page) page_header_bytes b).0) behind
          ∙ scan-records_with os tail (length page) page_header_bytes v open_ fuel,
      ap (λ n. read_records (length page) n (drop page_header_bytes page)) {y = total_size os}
            (omega arith)
          ∙ ap (read_records (length page) (total_size os)) behind
          ∙ read-records_with os tail (length page) v fuel,
    )

-- Bytes in the place of a record whose marker is not the commit marker.
pub marker-IsOpen :
    (front marker behind : Bytes)
    → length front ≡ 36
    → get_front 4 (marker ++ behind) ≢ commit_marker
    → IsOpen (front ++ (marker ++ behind))
marker-IsOpen front marker behind h m = inr (
    inr (λ e. m (
      ap (get_front 4) (
        sym (
          ap (λ n. drop n (front ++ (marker ++ behind))) (sym h)
          ∙ drop-append front (marker ++ behind)))
      ∙ e)))

pub length-header_bytes : (o : Observation) (payload : Bytes) → length (header_bytes o payload) ≡ 36
unfolding header_bytes header_front put
length-header_bytes o payload = refl

pub length-put : (n v : ℕ) → length (put n v) ≡ n
unfolding put
length-put zero v = refl
length-put (suc n) v = ap suc (length-put n (v / 256))

pub record_with-append :
    (o : Observation) (payload rest more : Bytes)
    → record_with o payload rest ++ more ≡ record_with o payload (rest ++ more)
record_with-append o payload rest more =
    let h = header_bytes o payload in
    let mark = put 4 commit_marker in
    append_assoc h (mark ++ (payload ++ rest)) more
    ∙ ap (◌++◌ h)
        (append_assoc mark (payload ++ rest) more ∙ ap (◌++◌ mark) (append_assoc payload rest more))

pub records_with-append :
    (os : List Observation) (tail more : Bytes)
    → records_with os tail ++ more ≡ records_with os (tail ++ more)
records_with-append [] tail more = refl
records_with-append (o ∷ os) tail more =
    record_with-append o (encode_observation o) (records_with os tail) more
    ∙ ap (record_with o (encode_observation o)) (records_with-append os tail more)

pub records_with-snoc :
    (os : List Observation) (o : Observation) (tail : Bytes)
    → records_with (os ++ (o ∷ [])) tail
      ≡ records_with os (record_with o (encode_observation o) tail)
records_with-snoc [] o tail = refl
records_with-snoc (x ∷ os) o tail =
    ap (record_with x (encode_observation x)) (records_with-snoc os o tail)
