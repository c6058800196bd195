-- ===== src/Exchange/Write.antt =====
-- components/smoker_app/src/snapshot_exchange.cpp: the accesses of `publish`.
use smoker_firmware.Common.{ℕ, ◌<◌, ◌≡◌, ◌≢◌, inl, inr, sym, ap, subst, ◌∙◌, ◌∷◌, arith, put}
use smoker_firmware.App.Snapshot.{SnapshotView}
use smoker_firmware.Exchange.{Slot, slot_count, write_slot, view_of, drop_publish}
use smoker_firmware.Exchange.Steps.{Writer, System, IsSized}
use smoker_firmware.Exchange.Copy.{view_of-write_slot, write_slot-IsSized}
use smoker_firmware.Exchange.Readers.{busy_at, held_at, total_mono, held-le-busy}
use smoker_firmware.Exchange.Lease.{
  WriterFits, IsExchange, put_self, put_ne, put-IsSized, readable-ne,
}
use mathlib.Core.List.{Memᴰ}

module _ {p a : ℕ} {s : System} (v : IsExchange p a s) where
  -- What the writer knows, once it is known where it stands.
  pub fits_at : {w : Writer} → s.writer ≡ w → WriterFits p a w s
  fits_at e = subst (λ w. WriterFits p a w s) e v.writer_fits

  -- A publish that is given up.
  pub dropped-IsExchange :
      IsExchange p a (record s { writer = Writer.resting; exchange = drop_publish s.exchange })
  dropped-IsExchange = record {
    few = v.few;
    counted = v.counted;
    in_range = v.in_range;
    named = v.named;
    sized = v.sized;
    writer_fits = tt;
    whole = v.whole;
  }

  -- An access that only moves the writer on.
  pub move-IsExchange : (w : Writer) → WriterFits p a w s → IsExchange p a (record s { writer = w })
  move-IsExchange w f = record {
    few = v.few;
    counted = v.counted;
    in_range = v.in_range;
    named = v.named;
    sized = v.sized;
    writer_fits = go w f;
    whole = v.whole;
  }
    where
      go : (w : Writer) → WriterFits p a w s → WriterFits p a w (record s { writer = w })
      go Writer.resting f = tt
      go (Writer.scanning x current i) f = f
      go (Writer.writing x d) f = f
      go (Writer.written x d) f = f

  pub choose_fits :
      (x : SnapshotView) (current i : ℕ)
      → WriterFits p a (Writer.scanning x current i) s
      → i < slot_count
      → i ≢ current
      → s.exchange.readers i ≡ 0
      → WriterFits p a (Writer.writing x i) s
  choose_fits x current i f h ne z = (
    f.0,
    (
      h,
      (
        λ same. ne (same ∙ sym f.1.0),
        omega
            (arith, v.counted i, z, total_mono (held_at i) (busy_at i) s.readers (held-le-busy i)),
      ),
    ),
  )

  pub write_part-IsExchange :
      (x : SnapshotView) (d : ℕ) (y : Slot)
      → s.writer ≡ Writer.writing x d
      → IsSized p a y
      → IsExchange p a
          (record s { exchange = record (s.exchange) { slots = put d y s.exchange.slots } })
  write_part-IsExchange x d y e z =
      let f : WriterFits p a (Writer.writing x d) s = fits_at e in
      record {
        few = v.few;
        counted = v.counted;
        in_range = v.in_range;
        named = v.named;
        sized = put-IsSized d y s.exchange.slots v.sized z;
        writer_fits =
            subst
              (λ w.
                WriterFits p a w (record s {
                  exchange = record (s.exchange) { slots = put d y s.exchange.slots };
                }))
              (sym e) f;
        whole = λ i r.
            subst (λ b. Memᴰ (view_of b) s.published)
              (sym (put_ne d i y s.exchange.slots (readable-ne v d i f.1 r))) (v.whole i r);
      }

  pub finish_copy-IsExchange :
      (x : SnapshotView) (d : ℕ)
      → s.writer ≡ Writer.writing x d
      → IsExchange p a (record s {
        writer = Writer.written x d;
        exchange = record (s.exchange) {
          slots = put d (write_slot x (s.exchange.slots d)) s.exchange.slots;
        };
      })
  finish_copy-IsExchange x d e =
      let f : WriterFits p a (Writer.writing x d) s = fits_at e in
      let y : Slot = write_slot x (s.exchange.slots d) in
      record {
        few = v.few;
        counted = v.counted;
        in_range = v.in_range;
        named = v.named;
        sized =
            put-IsSized d y s.exchange.slots v.sized
              (write_slot-IsSized x (s.exchange.slots d) p a (v.sized d) f.0);
        writer_fits = (
          ap view_of (put_self d y s.exchange.slots)
              ∙ view_of-write_slot x (s.exchange.slots d) p a (v.sized d) f.0,
          f.1,
        );
        whole = λ i r.
            subst (λ b. Memᴰ (view_of b) s.published)
              (sym (put_ne d i y s.exchange.slots (readable-ne v d i f.1 r))) (v.whole i r);
      }

  pub announce-IsExchange :
      (x : SnapshotView) (d : ℕ)
      → s.writer ≡ Writer.written x d
      → IsExchange p a (record s {
        writer = Writer.resting;
        exchange = record (s.exchange) { published_index = d };
        published = x ∷ s.published;
      })
  announce-IsExchange x d e =
      let f : WriterFits p a (Writer.written x d) s = fits_at e in
      record {
        few = v.few;
        counted = v.counted;
        in_range = v.in_range;
        named = omega (arith, f.1.0);
        sized = v.sized;
        writer_fits = tt;
        whole = λ i r. elim r.1 [
          | inl same ↦ Memᴰ.head (ap (λ k. view_of (s.exchange.slots k)) same ∙ f.0)
          | inr h ↦ Memᴰ.tail (v.whole i (r.0, inr h))
        ];
      }
