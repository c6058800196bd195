-- ===== src/Exchange/Readers.antt =====
-- components/smoker_app/src/snapshot_exchange.cpp: the readers of each slot, counted.
use smoker_firmware.Common.{
  ℕ, zero, suc, ◌+◌, ◌-◌, ◌^◌, ◌≤◌, ◌<◌, ◌≡◌, ◌≢◌, refl, List, [], ◌∷◌, ◌++◌, Bool, if◌then◌else◌,
  ◌==◌, arith, length, replicate,
}
use smoker_firmware.Exchange.{Exchange, no_slot, slot_count}
use smoker_firmware.Exchange.Steps.{
  Reader, ReaderStep, load, nothing_yet, count, confirm, retry, back_off, release,
}

abbrev pub one_if : Bool → ℕ
one_if b = if b then 1 else 0

-- The reader has been added to the count of slot `i`.
abbrev pub busy_at : ℕ → Reader → ℕ
busy_at i Reader.resting = 0
busy_at i (Reader.loaded k) = 0
busy_at i (Reader.counted k) = one_if (i == k)
busy_at i (Reader.leased k) = one_if (i == k)
busy_at i (Reader.leaving k) = one_if (i == k)

-- The reader has a lease on slot `i`.
abbrev pub held_at : ℕ → Reader → ℕ
held_at i (Reader.leased k) = one_if (i == k)
held_at i _ = 0

-- The reader has an index out of range.
abbrev pub astray : Reader → ℕ
astray Reader.resting = 0
astray (Reader.loaded k) = k - no_slot
astray (Reader.counted k) = suc k - slot_count
astray (Reader.leased k) = suc k - slot_count
astray (Reader.leaving k) = suc k - slot_count

abbrev pub total : (Reader → ℕ) → List Reader → ℕ
total w [] = 0
total w (r ∷ rs) = w r + total w rs

pub total-append :
    (w : Reader → ℕ) (xs ys : List Reader) → total w (xs ++ ys) ≡ total w xs + total w ys
total-append w [] ys = omega arith
total-append w (x ∷ xs) ys = omega (arith, total-append w xs ys)

pub total-replicate :
    (w : Reader → ℕ) (n : ℕ) → w Reader.resting ≡ 0 → total w (replicate n Reader.resting) ≡ 0
total-replicate w zero h = refl
total-replicate w (suc n) h = omega (arith, h, total-replicate w n h)

pub total_mono :
    (w u : Reader → ℕ) (rs : List Reader) → ((r : Reader) → w r ≤ u r) → total w rs ≤ total u rs
total_mono w u [] h = omega arith
total_mono w u (r ∷ rs) h = omega (arith, h r, total_mono w u rs h)

pub busy-le-one : (i : ℕ) (r : Reader) → busy_at i r ≤ 1
busy-le-one i Reader.resting = omega arith
busy-le-one i (Reader.loaded k) = omega arith
busy-le-one i (Reader.counted k) = ground arith
busy-le-one i (Reader.leased k) = ground arith
busy-le-one i (Reader.leaving k) = ground arith

pub held-le-busy : (i : ℕ) (r : Reader) → held_at i r ≤ busy_at i r
held-le-busy i Reader.resting = omega arith
held-le-busy i (Reader.loaded k) = omega arith
held-le-busy i (Reader.counted k) = omega arith
held-le-busy i (Reader.leased k) = omega arith
held-le-busy i (Reader.leaving k) = omega arith

pub total-le-length : (i : ℕ) (rs : List Reader) → total (busy_at i) rs ≤ length rs
total-le-length i [] = omega arith
total-le-length i (r ∷ rs) = omega (arith, busy-le-one i r, total-le-length i rs)

module _ {e : Exchange} where
  -- An access keeps each count equal to the readers of the slot, where `k` of them are others.
  pub reader-counts :
      {r q : Reader} {counts : ℕ → ℕ}
      → ReaderStep e r q counts
      → (i k : ℕ) → k + 1 < 2 ^ 32
      → e.readers i ≡ busy_at i r + k
      → counts i ≡ busy_at i q + k
  reader-counts load i k b h = h
  reader-counts nothing_yet i k b h = h
  reader-counts (count j ne) i k b h = ground arith
  reader-counts (confirm j p) i k b h = h
  reader-counts (retry j p) i k b h = h
  reader-counts (back_off j) i k b h = ground arith
  reader-counts (release j) i k b h = ground arith

  -- Only a lease on the published slot is new.
  pub reader-held :
      {r q : Reader} {counts : ℕ → ℕ}
      → ReaderStep e r q counts
      → (i : ℕ) → i ≢ e.published_index
      → held_at i q ≤ held_at i r
  reader-held load i ne = omega arith
  reader-held nothing_yet i ne = omega arith
  reader-held (count j n) i ne = omega arith
  reader-held (confirm j p) i ne = ground arith
  reader-held (retry j p) i ne = omega arith
  reader-held (back_off j) i ne = omega arith
  reader-held (release j) i ne = ground arith

  pub reader-astray :
      {r q : Reader} {counts : ℕ → ℕ}
      → ReaderStep e r q counts
      → e.published_index ≤ no_slot
      → astray r ≡ 0
      → astray q ≡ 0
  reader-astray load p h = omega arith
  reader-astray nothing_yet p h = omega arith
  reader-astray (count j n) p h = omega (arith, n)
  reader-astray (confirm j e') p h = h
  reader-astray (retry j e') p h = h
  reader-astray (back_off j) p h = omega arith
  reader-astray (release j) p h = omega arith
