-- ===== src/Exchange/RoundTrip.antt =====
-- components/smoker_app/src/snapshot_exchange.cpp: `publish`, then `acquire` and `view`.
use smoker_firmware.Common.{
  ℕ, zero, suc, ◌<◌, ◌≤◌, length, ◌≡◌, ◌≢◌, ◌⊎◌, ◌↔◌, inl, inr, refl, sym, ap, subst, ◌∙◌, [], ◌∷◌,
  Bool, true, false, some, Bool-cases, ◌==◌, arith, put,
}
use smoker_firmware.App.Snapshot.{SnapshotView}
use smoker_firmware.Exchange.{
  Slot, Exchange, no_slot, fits, is_free, first_free, publish, acquire, write_slot, view_of,
  drop_publish,
}
use smoker_firmware.Exchange.Copy.{Fits, fits-Fits, view_of-write_slot}
use smoker_firmware.Exchange.Lease.{put_self}
use smoker_firmware.Exchange.Steps.{IsSized}
use smoker_firmware.Exchange.Calls.{publish_fitting, publish_not_fitting, acquire-some}

-- The tests of `publish`.
publish_tests :
    (v : SnapshotView) (e : Exchange)
    → ((publish v e).0 ≡ true)
      ↔ ((fits v e ≡ true) × ((is_free e 0 ≡ true) ⊎ ((is_free e 1 ≡ true) ⊎ (is_free e 2 ≡ true))))
unfolding publish
publish_tests v e = ground arith

free_slot :
    (i : ℕ) (e : Exchange)
    → i < 3
    → i ≢ e.published_index
    → e.readers i ≡ 0
    → (is_free e 0 ≡ true) ⊎ ((is_free e 1 ≡ true) ⊎ (is_free e 2 ≡ true))
free_slot zero e h n r = inl (ground (arith, n, r))
free_slot (suc zero) e h n r = inr (inl (ground (arith, n, r)))
free_slot (suc (suc zero)) e h n r = inr (inr (ground (arith, n, r)))
free_slot (suc (suc (suc i))) e h n r = absurd (omega (arith, h))

free_slot_iff :
    (e : Exchange)
    → ((is_free e 0 ≡ true) ⊎ ((is_free e 1 ≡ true) ⊎ (is_free e 2 ≡ true)))
      ↔ ((i : ℕ) × (i < 3) × (i ≢ e.published_index) × (e.readers i ≡ 0))
free_slot_iff e = (
  λ h. elim h [
    | inl x ↦ (0, omega arith, ground (arith, x), ground (arith, x))
    | inr (inl x) ↦ (1, omega arith, ground (arith, x), ground (arith, x))
    | inr (inr x) ↦ (2, omega arith, ground (arith, x), ground (arith, x))
  ],
  λ h. free_slot h.0 e h.1 h.2 h.3,
)

-- `publish` succeeds exactly where the snapshot has no more probes and open alarms than the first slot
-- has places for, no more than 16 command results, and one of the three slots is not the published
-- one and has no reader.
pub publish-accepts :
    (v : SnapshotView) (e : Exchange)
    → ((publish v e).0 ≡ true) ↔ (
        (length v.probes ≤ length (e.slots 0).probes)
        × ((length v.active_alarms ≤ length (e.slots 0).alarms)
            × ((length v.command_results ≤ 16)
                × ((i : ℕ) × (i < 3) × (i ≢ e.published_index) × (e.readers i ≡ 0)))))
publish-accepts v e =
    let tests = publish_tests v e in
    let slots = free_slot_iff e in
    (
      λ h.
          let (fit, free) = tests.0 h in
          (ground (arith, fit), (ground (arith, fit), (ground (arith, fit), slots.0 free))),
      λ h. tests.1 (ground (arith, h.0, h.1.0, h.1.1.0), slots.1 h.1.1.1),
    )

true_ne_false : true ≢ false
true_ne_false h = ground (arith, h)

publish_full :
    (v : SnapshotView) (e : Exchange)
    → fits v e ≡ true
    → (first_free (0 ∷ 1 ∷ 2 ∷ []) e == no_slot) ≡ true
    → publish v e ≡ (false, drop_publish e)
publish_full v e fit full = publish_fitting v e fit ∙ rw full refl

publish_done :
    (v : SnapshotView) (e : Exchange)
    → fits v e ≡ true
    → (first_free (0 ∷ 1 ∷ 2 ∷ []) e == no_slot) ≡ false
    → publish v e ≡ (
      true,
      record e {
        slots =
            put
              (first_free (0 ∷ 1 ∷ 2 ∷ []) e)
              (write_slot v (e.slots (first_free (0 ∷ 1 ∷ 2 ∷ []) e)))
              e.slots;
        published_index = first_free (0 ∷ 1 ∷ 2 ∷ []) e;
      },
    )
publish_done v e fit free = publish_fitting v e fit ∙ rw free refl

-- What `acquire` gives after a call of `publish` that answered so.
abbrev ReadsBack : SnapshotView → Bool × Exchange → Type 0
ReadsBack v r = (i : ℕ) × (((acquire r.1).0 ≡ some i) × (view_of ((acquire r.1).1.slots i) ≡ v))

ReadsBack-at :
    (v : SnapshotView) (d : ℕ) (x : Slot) (e : Exchange) (p a : ℕ)
    → IsSized p a x
    → Fits p a v
    → (d == no_slot) ≡ false
    → ReadsBack v (true, record e { slots = put d (write_slot v x) e.slots; published_index = d })
ReadsBack-at v d x e p a z f free =
    let t : Exchange = record e { slots = put d (write_slot v x) e.slots; published_index = d } in
    let got = acquire-some t free in
    (
      d,
      (
        ap (λ r. r.0) got,
        ap (λ r. view_of (r.1.slots d)) got
            ∙ ap view_of (put_self d (write_slot v x) e.slots)
            ∙ view_of-write_slot v x p a z f,
      ),
    )

-- After a `publish` that succeeds, `acquire` gives a lease through which the snapshot is read back.
pub publish-acquire-view_of :
    (v : SnapshotView) (e : Exchange) (p a : ℕ)
    → ((i : ℕ) → IsSized p a (e.slots i))
    → (publish v e).0 ≡ true
    → (i : ℕ) × (((acquire (publish v e).1).0 ≡ some i)
        × (view_of ((acquire (publish v e).1).1.slots i) ≡ v))
publish-acquire-view_of v e p a z h =
    let d = first_free (0 ∷ 1 ∷ 2 ∷ []) e in
    elim (Bool-cases (fits v e)) [
      | inr small ↦ absurd (true_ne_false (sym h ∙ ap (λ r. r.0) (publish_not_fitting v e small)))
      | inl fit ↦ elim (Bool-cases (d == no_slot)) [
        | inl full ↦ absurd (true_ne_false (sym h ∙ ap (λ r. r.0) (publish_full v e fit full)))
        | inr free ↦
            subst (ReadsBack v) (sym (publish_done v e fit free))
              (ReadsBack-at v d (e.slots d) e p a (z d) (fits-Fits v e p a (z 0) fit) free)
      ]
    ]
