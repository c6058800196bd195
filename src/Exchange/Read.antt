-- ===== src/Exchange/Read.antt =====
-- components/smoker_app/src/snapshot_exchange.cpp: the accesses of `acquire` and `release`.
use smoker_firmware.Common.{
  ℕ, suc, ◌+◌, ◌≤◌, ◌≡◌, ◌≢◌, inl, inr, sym, ap, ◌∙◌, List, ◌∷◌, ◌++◌, Bool-cases, ◌==◌, arith,
  length, length-append,
}
use smoker_firmware.Exchange.Steps.{Writer, Reader, System, ReaderStep}
use smoker_firmware.Exchange.Readers.{
  busy_at, held_at, astray, total, total-append, total-le-length, reader-counts, reader-held,
  reader-astray,
}
use smoker_firmware.Exchange.Lease.{leases, IsPrivate, WriterFits, IsExchange}

-- A reader's access and the writer: the slots and the published index are the same.
abbrev pub with_readers : System → (ℕ → ℕ) → List Reader → System
with_readers s counts rs = record s {
  exchange = record (s.exchange) { readers = counts };
  readers = rs;
}

WriterFits-with_readers :
    (p a : ℕ) (w : Writer) (s : System) (counts : ℕ → ℕ) (rs : List Reader)
    → ((d : ℕ) → IsPrivate d s → IsPrivate d (with_readers s counts rs))
    → WriterFits p a w s
    → WriterFits p a w (with_readers s counts rs)
WriterFits-with_readers p a Writer.resting s counts rs h f = tt
WriterFits-with_readers p a (Writer.scanning v current i) s counts rs h f = f
WriterFits-with_readers p a (Writer.writing v d) s counts rs h f = (f.0, h d f.1)
WriterFits-with_readers p a (Writer.written v d) s counts rs h f = (f.0, h d f.1)

split_total :
    (w : Reader → ℕ) (before after : List Reader) (r : Reader)
    → total w (before ++ (r ∷ after)) ≡ w r + (total w before + total w after)
split_total w before after r = omega (arith, total-append w before (r ∷ after))

module _ {p a : ℕ} {s : System} (v : IsExchange p a s) where
  -- An access of a reader keeps the description.
  pub read-IsExchange :
      {r q : Reader} {counts : ℕ → ℕ} (before after : List Reader)
      → s.readers ≡ before ++ (r ∷ after)
      → ReaderStep s.exchange r q counts
      → IsExchange p a (with_readers s counts (before ++ (q ∷ after)))
  read-IsExchange {r} {q} {counts} before after e st =
      let t : System = with_readers s counts (before ++ (q ∷ after)) in
      let others : (Reader → ℕ) → ℕ = λ w. total w before + total w after in
      let old : (w : Reader → ℕ) → total w s.readers ≡ w r + others w =
        λ w. ap (total w) e ∙ split_total w before after r in
      let new : (w : Reader → ℕ) → total w t.readers ≡ w q + others w =
        λ w. split_total w before after q in
      let size : length s.readers ≡ suc (length before + length after) =
        ap length e ∙ omega (arith, length-append before (r ∷ after)) in
      let held : (i : ℕ) → i ≢ s.exchange.published_index → leases i t ≤ leases i s =
        λ i ne. omega (arith, old (held_at i), new (held_at i), reader-held st i ne) in
      record {
        few = omega (arith, v.few, size, length-append before (q ∷ after));
        counted = λ i.
            reader-counts st i (others (busy_at i))
              (omega (arith, v.few, size, total-le-length i before, total-le-length i after))
              (v.counted i ∙ old (busy_at i))
            ∙ sym (new (busy_at i));
        in_range = omega (
          arith,
          old astray,
          new astray,
          v.in_range,
          reader-astray st v.named (omega (arith, old astray, v.in_range)),
        );
        named = v.named;
        sized = v.sized;
        writer_fits =
            WriterFits-with_readers p a s.writer s counts t.readers
              (λ d f. (f.0, (f.1.0, omega (arith, f.1.1, held d f.1.0)))) v.writer_fits;
        whole = λ i f. v.whole i (
          f.0,
          elim (Bool-cases (i == s.exchange.published_index)) [
            | inl same ↦ inl (ground (arith, same))
            | inr apart ↦ elim f.1 [
              | inl same ↦ inl same
              | inr h ↦ inr (omega (arith, h, held i (ground (arith, apart))))
            ]
          ],
        );
      }
