-- ===== src/Exchange/Lease.antt =====
-- components/smoker_app/src/snapshot_exchange.cpp: a leased slot holds a whole snapshot and is not
-- written.
use smoker_firmware.Common.{
  ℕ, ◌^◌, ◌≤◌, ◌<◌, ◌≡◌, ◌≢◌, ◌⊎◌, inl, inr, refl, sym, subst, Bool-cases, if◌then◌else◌, ◌==◌,
  arith, length, length-replicate, put,
}
use smoker_firmware.Exchange.{Slot, no_slot, slot_count, view_of}
use smoker_firmware.Exchange.Steps.{Writer, Reader, System, start, IsSized}
use smoker_firmware.Exchange.Copy.{Fits}
use smoker_firmware.Exchange.Readers.{busy_at, held_at, astray, total, total-replicate}
use mathlib.Core.List.{Memᴰ}

abbrev pub leases : ℕ → System → ℕ
leases i s = total (held_at i) s.readers

-- The slot of a copy is not the published one and has no lease.
abbrev pub IsPrivate : ℕ → System → Type 0
IsPrivate d s = (d < slot_count) × ((d ≢ s.exchange.published_index) × (leases d s ≡ 0))

-- What the writer knows where it stands.
abbrev pub WriterFits : ℕ → ℕ → Writer → System → Type 0
WriterFits p a Writer.resting s = Unit {0}
WriterFits p a (Writer.scanning v current i) s =
    Fits p a v × ((current ≡ s.exchange.published_index) × (i ≤ slot_count))
WriterFits p a (Writer.writing v d) s = Fits p a v × IsPrivate d s
WriterFits p a (Writer.written v d) s = (view_of (s.exchange.slots d) ≡ v) × IsPrivate d s

-- Slot `i` can be read: it is the published one, or a reader has a lease on it.
abbrev pub IsReadable : ℕ → System → Type 0
IsReadable i s = (i < slot_count) × ((i ≡ s.exchange.published_index) ⊎ (0 < leases i s))

pub record IsExchange (p a : ℕ) (s : System) : Type 0 where
  pub few : length s.readers < 2 ^ 32
  pub counted : (i : ℕ) → s.exchange.readers i ≡ total (busy_at i) s.readers
  pub in_range : total astray s.readers ≡ 0
  pub named : s.exchange.published_index ≤ no_slot
  pub sized : (i : ℕ) → IsSized p a (s.exchange.slots i)
  pub writer_fits : WriterFits p a s.writer s
  pub whole : (i : ℕ) → IsReadable i s → Memᴰ (view_of (s.exchange.slots i)) s.published

pub start-IsExchange :
    {p a : ℕ} (blank : Slot) (n : ℕ)
    → IsSized p a blank
    → n < 2 ^ 32
    → IsExchange p a (start blank n)
start-IsExchange blank n z h = record {
  few = omega (arith, length-replicate n Reader.resting);
  counted = λ i. sym (total-replicate (busy_at i) n refl);
  in_range = total-replicate astray n refl;
  named = omega arith;
  sized = λ _. z;
  writer_fits = tt;
  whole = λ i r. elim r.1 [
    | inl e ↦ absurd (omega (arith, r.0, e))
    | inr h' ↦ absurd (omega (arith, h', total-replicate (held_at i) n refl))
  ];
}

pub put_self : {A : Type 0} (i : ℕ) (v : A) (f : ℕ → A) → put i v f i ≡ v
put_self i v f = ground arith

pub put_ne : {A : Type 0} (i j : ℕ) (v : A) (f : ℕ → A) → j ≢ i → put i v f j ≡ f j
put_ne i j v f h = ground arith

pub put-IsSized :
    {p a : ℕ} (d : ℕ) (x : Slot) (f : ℕ → Slot)
    → ((i : ℕ) → IsSized p a (f i))
    → IsSized p a x
    → (i : ℕ) → IsSized p a (put d x f i)
put-IsSized {p} {a} d x f z h i = elim (Bool-cases (i == d)) [
  | inl e ↦ subst (λ b. IsSized p a (if b then x else f i)) (sym e) h
  | inr e ↦ subst (λ b. IsSized p a (if b then x else f i)) (sym e) (z i)
]

module _ {p a : ℕ} {s : System} (v : IsExchange p a s) where
  -- The slot of a copy is not readable.
  pub readable-ne : (d i : ℕ) → IsPrivate d s → IsReadable i s → i ≢ d
  readable-ne d i f r e = elim r.1 [
    | inl h ↦ f.1.0 (omega (arith, h, e))
    | inr h ↦ absurd (omega (arith, f.1.1, subst (λ k. 0 < leases k s) e h))
  ]
