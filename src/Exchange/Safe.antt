-- ===== src/Exchange/Safe.antt =====
-- components/smoker_app/src/snapshot_exchange.cpp: each access keeps the description of the exchange.
use smoker_firmware.Common.{ℕ, ◌+◌, ◌<◌, ◌≡◌, inr, refl, ◌∙◌, arith}
use smoker_firmware.Exchange.{slot_count}
use smoker_firmware.Exchange.Steps.{
  Writer, System, Step, read, too_large, begin, skip, choose, all_busy, write_part, finish_copy,
  announce, Reach, here,
}
use smoker_firmware.Exchange.Copy.{fits-Fits}
use smoker_firmware.Exchange.Lease.{
  leases, WriterFits, IsExchange, start-IsExchange, put_ne, readable-ne,
}
use smoker_firmware.Exchange.Read.{read-IsExchange}
use smoker_firmware.Exchange.Write.{
  dropped-IsExchange, move-IsExchange, choose_fits, write_part-IsExchange, finish_copy-IsExchange,
  announce-IsExchange, fits_at,
}

module _ {p a : ℕ} {s : System} (v : IsExchange p a s) where
  pub Step-IsExchange : {t : System} → Step s t → IsExchange p a t
  Step-IsExchange (read before after e st) = read-IsExchange v before after e st
  Step-IsExchange (too_large x e h) = dropped-IsExchange v
  Step-IsExchange (begin x e h) =
      move-IsExchange v (Writer.scanning x s.exchange.published_index 0)
        (fits-Fits x s.exchange p a (v.sized 0) h, (refl, omega arith))
  Step-IsExchange (skip x current i e h why) =
      let f : WriterFits p a (Writer.scanning x current i) s = fits_at v e in
      move-IsExchange v (Writer.scanning x current (i + 1)) (f.0, (f.1.0, omega (arith, h)))
  Step-IsExchange (choose x current i e h ne z) =
      move-IsExchange v (Writer.writing x i) (choose_fits v x current i (fits_at v e) h ne z)
  Step-IsExchange (all_busy x current e) = dropped-IsExchange v
  Step-IsExchange (write_part x d y e z) =
      write_part-IsExchange v x d y e (z.0 ∙ (v.sized d).0, (z.1.0 ∙ (v.sized d).1.0, z.1.1))
  Step-IsExchange (finish_copy x d e) = finish_copy-IsExchange v x d e
  Step-IsExchange (announce x d e) = announce-IsExchange v x d e

  -- A copy goes to another slot than the ones with a lease.
  Step_keeps :
      {t : System}
      → Step s t
      → (i : ℕ) → i < slot_count
      → 0 < leases i s
      → t.exchange.slots i ≡ s.exchange.slots i
  Step_keeps (read before after e st) i h l = refl
  Step_keeps (too_large x e n) i h l = refl
  Step_keeps (begin x e n) i h l = refl
  Step_keeps (skip x current k e n why) i h l = refl
  Step_keeps (choose x current k e n ne z) i h l = refl
  Step_keeps (all_busy x current e) i h l = refl
  Step_keeps (write_part x d y e z) i h l =
      let f : WriterFits p a (Writer.writing x d) s = fits_at v e in
      put_ne d i y s.exchange.slots (readable-ne v d i f.1 (h, inr l))
  Step_keeps (finish_copy x d e) i h l =
      let f : WriterFits p a (Writer.writing x d) s = fits_at v e in
      put_ne d i _ s.exchange.slots (readable-ne v d i f.1 (h, inr l))
  Step_keeps (announce x d e) i h l = refl

-- Where the accesses are sequentially consistent, whatever the readers and the writer do, and in
-- whatever order: each slot's count is the number of
-- readers in it, no reader and no copy uses an index out of range, a copy never goes to the published
-- slot or to one with a lease, and the published slot and every leased slot hold a whole snapshot
-- that was published, never one that is half written.
pub Reach-IsExchange : {p a : ℕ} {s : System} → Reach p a s → IsExchange p a s
Reach-IsExchange (here {blank} n z h) = start-IsExchange blank n z h
Reach-IsExchange (Reach.then r st) = Step-IsExchange (Reach-IsExchange r) st

-- Where the accesses are sequentially consistent, no access changes a slot on which a reader has a
-- lease.
pub Step_keeps_leased :
    {p a : ℕ} {s t : System}
    → Reach p a s
    → Step s t
    → (i : ℕ) → i < slot_count
    → 0 < leases i s
    → t.exchange.slots i ≡ s.exchange.slots i
Step_keeps_leased r st i h l = Step_keeps (Reach-IsExchange r) st i h l
