-- ===== src/History/Page/Append.antt =====
-- components/smoker_platform/src/history_support.cpp: the writes of `append_assigned`, and what a page
-- reads as when they are cut off.
use smoker_firmware.Common.{
  ℕ, Bool, false, ◌<◌, ◌⊎◌, ◌==◌, ==_iff, Bool-cases, ◌+◌, ◌≡◌, ◌≢◌, inl, inr, refl, sym, ap, subst,
  ◌∙◌, List, [], ◌∷◌, ◌++◌, All, All-append, true, arith, length, length-append,
}
use mathlib.Core.List.{append_assoc}
use smoker_firmware.History.{Observation}
use smoker_firmware.History.Bytes.{Bytes, put}
use smoker_firmware.History.Codec.{encode_observation}
use smoker_firmware.History.Page.{
  commit_marker, record_header_bytes, page_header_bytes, get_front, header_bytes, is_erased,
  and_then, write_record,
}
use smoker_firmware.History.Page.Header.{record_with}
use smoker_firmware.History.Page.Scan.{IsRecord, total_size, records_with, IsOpen, total-length}
use smoker_firmware.History.Page.Reads.{
  ReadsAs, records_with-ReadsAs, marker-IsOpen, length-header_bytes, length-put,
  records_with-append, records_with-snoc,
}

-- A write of a flash to erased bytes: it makes them the bytes that are written, or it fails and leaves
-- some bytes in their place, and nowhere else.
abbrev Programs : (ℕ → Bytes → Bytes → Bool × Bytes) → Bytes → Bytes → Bytes → Bytes → Type 0
Programs write pre old post source =
    (write (length pre) source (pre ++ (old ++ post)) ≡ (true, pre ++ (source ++ post)))
    ⊎ ((torn : Bytes) × (length torn ≡ length old)
        × (All (λ b. b < 256) torn)
        × (write (length pre) source (pre ++ (old ++ post)) ≡ (false, pre ++ (torn ++ post))))

-- What a flash does at the least; nothing is known of a write to bytes that are not erased.
abbrev pub IsFlash : (ℕ → Bytes → Bytes → Bool × Bytes) → Type 0
IsFlash write =
    (pre old post source : Bytes)
    → is_erased old ≡ true
    → length source ≡ length old
    → Programs write pre old post source

-- There is a write to erased bytes that fails.
abbrev pub Fails : (ℕ → Bytes → Bytes → Bool × Bytes) → Type 0
Fails write =
    (pre : Bytes) × (old : Bytes) × (post : Bytes) × (source : Bytes) × (is_erased old ≡ true)
    × ((write (length pre) source (pre ++ (old ++ post))).0 ≡ false)

-- Appended, or else a write has failed, and the page reads as before or with the record.
abbrev pub IsAppended :
    (ℕ → Bytes → Bytes → Bool × Bytes) → List Observation → Observation → Bool × Bytes → Type 0
IsAppended write os o r =
    ((r.0 ≡ true) × ReadsAs r.1 (os ++ (o ∷ [])))
    ⊎ ((r.0 ≡ false) × Fails write × (ReadsAs r.1 os ⊎ ReadsAs r.1 (os ++ (o ∷ []))))

-- The free bytes for a record: the places of its header, its marker and its payload, and the bytes
-- behind it, all erased.
pub record IsFree (o : Observation) (front marker old rest : Bytes) : Type 0 where
  pub front_size : length front ≡ 36
  pub marker_size : length marker ≡ 4
  pub old_size : length old ≡ length (encode_observation o)
  pub front_free : is_erased front ≡ true
  pub marker_free : is_erased marker ≡ true
  pub old_free : is_erased old ≡ true
  pub rest_free : is_erased rest ≡ true

assoc_twice : (x y z w : Bytes) → (x ++ (y ++ z)) ++ w ≡ x ++ (y ++ (z ++ w))
assoc_twice x y z w = append_assoc x (y ++ z) w ∙ ap (◌++◌ x) (append_assoc y z w)

-- Four bytes that are read as the marker are those of the marker.
marker_bytes :
    (m behind : Bytes)
    → length m ≡ 4
    → All (λ b. b < 256) m
    → get_front 4 (m ++ behind) ≡ commit_marker
    → m ≡ put 4 commit_marker
unfolding get_front put
marker_bytes (a ∷ b ∷ c ∷ d ∷ []) behind l v e =
    let w : a ≡ 0x43 = omega (arith, e, v.0, v.1.0, v.1.1.0, v.1.1.1.0) in
    let x : b ≡ 0x4d = omega (arith, e, v.0, v.1.0, v.1.1.0, v.1.1.1.0) in
    let y : c ≡ 0x49 = omega (arith, e, v.0, v.1.0, v.1.1.0, v.1.1.1.0) in
    let z : d ≡ 0x54 = omega (arith, e, v.0, v.1.0, v.1.1.0, v.1.1.1.0) in rw (w, x, y, z) refl
marker_bytes m behind l v e = absurd (omega (arith, l))

erased_is_no_marker :
    (m behind : Bytes)
    → length m ≡ 4
    → is_erased m ≡ true
    → get_front 4 (m ++ behind) ≢ commit_marker
unfolding get_front
erased_is_no_marker (a ∷ b ∷ c ∷ d ∷ []) behind l v e =
    let w : a ≡ 0xff = ground arith in omega (arith, w, e)
erased_is_no_marker m behind l v e = absurd (omega (arith, l))

module _ (write : ℕ → Bytes → Bytes → Bool × Bytes) (flash : IsFlash write) where
  -- What holds after a write that is made and after one that fails holds after the write.
  after_write :
      (P : Bool × Bytes → Type 0) (offset : ℕ) (pre old post source page : Bytes)
      → offset ≡ length pre
      → page ≡ pre ++ (old ++ post)
      → is_erased old ≡ true
      → length source ≡ length old
      → P (true, pre ++ (source ++ post))
      → ((torn : Bytes)
          → length torn ≡ length old
          → All (λ b. b < 256) torn
          → Fails write
          → P (false, pre ++ (torn ++ post)))
      → P (write offset source page)
  after_write P offset pre old post source page at here free same made failed =
      let written =
        subst P (sym (ap (λ n. write n source page) at ∙ ap (write (length pre) source) here)) in
      elim (flash pre old post source free same) [
        | inl e ↦ written (subst P (sym e) made)
        | inr (torn, l, bytes, e) ↦ written (
            subst P (sym e) (
              failed torn l bytes (pre, old, post, source, free, ap (λ (r : Bool × Bytes). r.0) e)))
      ]

  -- The three writes behind the bytes `pre`, where it is known what the page reads as with open bytes
  -- behind them and with the whole record.
  write_record-IsAppended :
      (os : List Observation) (o : Observation) (pre front marker old rest : Bytes)
      → IsFree o front marker old rest
      → ((bytes : Bytes) → IsOpen bytes → ReadsAs (pre ++ bytes) os)
      → ReadsAs (pre ++ record_with o (encode_observation o) rest) (os ++ (o ∷ []))
      → IsAppended write os o
          (write_record write o (length pre) (pre ++ (front ++ (marker ++ (old ++ rest)))))
  unfolding write_record
  write_record-IsAppended os o pre front marker old rest f reads_old reads_new =
      let payload = encode_observation o in
      let h = header_bytes o payload in
      let h_size = length-header_bytes o payload in
      let mark = put 4 commit_marker in
      let last = and_then (write (length pre + 36) mark) in
      let Q : Bool × Bytes → Type 0 = IsAppended write os o in
      let open_at : (x m behind : Bytes)
          → length x ≡ 36
          → length m ≡ 4
          → is_erased m ≡ true
          → IsOpen (x ++ (m ++ behind)) =
        λ x m behind l k e. marker-IsOpen x m behind l (erased_is_no_marker m behind k e) in
      let third : (page : Bytes)
          → page ≡ (pre ++ h) ++ (marker ++ (payload ++ rest))
          → Q (write (length pre + 36) mark page) =
        λ page e.
          after_write Q (length pre + 36) (pre ++ h) marker (payload ++ rest) mark page
            (omega (arith, length-append pre h, h_size)) e f.marker_free
            (length-put 4 commit_marker ∙ sym f.marker_size)
            (inl (
              refl,
              subst (λ p. ReadsAs p (os ++ (o ∷ [])))
                  (sym (append_assoc pre h (mark ++ (payload ++ rest)))) reads_new,
            ))
            (λ torn l bytes fails.
              let k : length torn ≡ 4 = l ∙ f.marker_size in
              inr (
                refl,
                fails,
                elim (Bool-cases (get_front 4 (torn ++ (payload ++ rest)) == commit_marker)) [
                  | inl same ↦
                      let all =
                        marker_bytes torn (payload ++ rest) k bytes
                          ((==_iff _ commit_marker).0 same) in
                      inr (
                        subst
                          (λ m. ReadsAs ((pre ++ h) ++ (m ++ (payload ++ rest))) (os ++ (o ∷ [])))
                          (sym all)
                          (subst (λ p. ReadsAs p (os ++ (o ∷ [])))
                            (sym (append_assoc pre h (mark ++ (payload ++ rest)))) reads_new))
                  | inr other ↦ inl (
                      subst (λ p. ReadsAs p os)
                        (sym (append_assoc pre h (torn ++ (payload ++ rest))))
                        (reads_old (h ++ (torn ++ (payload ++ rest))) (
                          marker-IsOpen h torn (payload ++ rest) h_size
                            (λ e. absurd (cc (other, (==_iff _ commit_marker).1 e))))))
                ],
              )) in
      let second : (page : Bytes)
          → page ≡ (pre ++ (h ++ marker)) ++ (old ++ rest)
          → Q (last (write (length pre + record_header_bytes) payload page)) =
        λ page e.
          after_write (λ r. Q (last r)) (length pre + record_header_bytes) (pre ++ (h ++ marker))
            old rest payload page
            (omega (
              arith,
              length-append pre (h ++ marker),
              length-append h marker,
              h_size,
              f.marker_size,
            ))
            e f.old_free (sym f.old_size)
            (third ((pre ++ (h ++ marker)) ++ (payload ++ rest)) (
              assoc_twice pre h marker (payload ++ rest)
              ∙ sym (append_assoc pre h (marker ++ (payload ++ rest)))))
            (λ torn l bytes fails. inr (
              refl,
              fails,
              inl (
                  subst (λ p. ReadsAs p os) (sym (assoc_twice pre h marker (torn ++ rest)))
                    (reads_old (h ++ (marker ++ (torn ++ rest)))
                      (open_at h marker (torn ++ rest) h_size f.marker_size f.marker_free))),
            )) in
      after_write (λ r. Q (last (and_then (write (length pre + record_header_bytes) payload) r)))
        (length pre) pre front (marker ++ (old ++ rest)) h _ refl refl f.front_free
        (h_size ∙ sym f.front_size)
        (second (pre ++ (h ++ (marker ++ (old ++ rest))))
          (sym (assoc_twice pre h marker (old ++ rest))))
        (λ torn l bytes fails. inr (
          refl,
          fails,
          inl (
              reads_old (torn ++ (marker ++ (old ++ rest)))
                (open_at torn marker (old ++ rest) (l ∙ f.front_size) f.marker_size f.marker_free)),
        ))

  -- Appending a record is atomic, on a flash where a write to erased bytes either makes them the bytes
  -- that are written, or fails and leaves any bytes in their place; nothing is known of a write to
  -- bytes that are not erased. On a page with the records `os` and erased bytes behind them, the
  -- three writes either succeed, and the page then reads as `os` with the new record at its end; or
  -- one of them fails, and the page reads as before, or with the whole new record, but never as
  -- anything else.
  pub write_record-ReadsAs :
      (head : Bytes) (os : List Observation) (o : Observation) (front marker old rest : Bytes)
      → length head ≡ page_header_bytes
      → All IsRecord os
      → IsRecord o
      → IsFree o front marker old rest
      → IsAppended write os o (
          write_record write o
            (page_header_bytes + total_size os)
            (head ++ records_with os (front ++ (marker ++ (old ++ rest)))))
  write_record-ReadsAs head os o front marker old rest h v w f =
      let pre = head ++ records_with os [] in
      let free = front ++ (marker ++ (old ++ rest)) in
      let split : (bytes : Bytes) → head ++ records_with os bytes ≡ pre ++ bytes = λ bytes.
        ap (◌++◌ head) (sym (records_with-append os [] bytes))
        ∙ sym (append_assoc head (records_with os []) bytes) in
      let whole = record_with o (encode_observation o) rest in
      subst (IsAppended write os o)
        (ap (write_record write o (length pre)) (sym (split free))
          ∙ ap (λ n. write_record write o n (head ++ records_with os free)) {x = length pre}
              (omega (arith, h, length-append head (records_with os []), total-length os [])))
        (write_record-IsAppended os o pre front marker old rest f
          (λ bytes e.
            subst (λ p. ReadsAs p os) (split bytes) (records_with-ReadsAs head os bytes h v e))
          (subst (λ p. ReadsAs p (os ++ (o ∷ [])))
            (ap (◌++◌ head) (records_with-snoc os o rest) ∙ split whole)
            (records_with-ReadsAs head (os ++ (o ∷ [])) rest h
              (All-append IsRecord os (o ∷ []) v (w, tt)) (inr (inl f.rest_free)))))
