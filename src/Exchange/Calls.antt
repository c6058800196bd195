-- ===== src/Exchange/Calls.antt =====
-- components/smoker_app/src/snapshot_exchange.cpp: whole calls of `publish` and `acquire` between the
-- accesses of the other side.
use smoker_firmware.Common.{
  ℕ, ◌+◌, ◌<◌, ◌≡◌, ◌≢◌, ◌⊎◌, inl, inr, refl, sym, ap, subst, List, [], ◌∷◌, ◌++◌, Bool, true,
  false, Option, none, some, Bool-cases, if◌then◌else◌, ◌==◌, arith, put,
}
use smoker_firmware.App.Snapshot.{SnapshotView}
use smoker_firmware.Exchange.{
  Exchange, no_slot, slot_count, fits, is_free, first_free, publish, acquire, write_slot,
  drop_publish, enter,
}
use smoker_firmware.Exchange.Steps.{
  Writer, Reader, System, load, nothing_yet, count, confirm, read, too_large, begin, skip, choose,
  all_busy, finish_copy, announce, Reach,
}

abbrev pub published_after : Bool → SnapshotView → List SnapshotView → List SnapshotView
published_after true v l = v ∷ l
published_after false v l = l

abbrev pub after_publish : SnapshotView → System → Bool × Exchange → System
after_publish v s r = record s {
  writer = Writer.resting;
  exchange = r.1;
  published = published_after r.0 v s.published;
}

abbrev pub lease_of : Option ℕ → Reader
lease_of none = Reader.resting
lease_of (some i) = Reader.leased i

abbrev pub after_acquire : System → List Reader → List Reader → Option ℕ × Exchange → System
after_acquire s before after r = record s {
  exchange = r.1;
  readers = before ++ (lease_of r.0 ∷ after);
}

-- The end of `publish` after the loop.
abbrev pub publish_to : SnapshotView → Exchange → ℕ → Bool × Exchange
publish_to v e d =
    if d == no_slot
    then (false, drop_publish e)
    else (true, record e { slots = put d (write_slot v (e.slots d)) e.slots; published_index = d })

pub publish_fitting :
    (v : SnapshotView) (e : Exchange)
    → fits v e ≡ true
    → publish v e ≡ publish_to v e (first_free (0 ∷ 1 ∷ 2 ∷ []) e)
unfolding publish
publish_fitting v e h = rw h refl

pub publish_not_fitting :
    (v : SnapshotView) (e : Exchange) → fits v e ≡ false → publish v e ≡ (false, drop_publish e)
unfolding publish
publish_not_fitting v e h = rw h refl

first_free_here :
    (i : ℕ) (is : List ℕ) (e : Exchange) → is_free e i ≡ true → first_free (i ∷ is) e ≡ i
first_free_here i is e h = rw h refl

first_free_later :
    (i : ℕ) (is : List ℕ) (e : Exchange)
    → is_free e i ≡ false
    → first_free (i ∷ is) e ≡ first_free is e
first_free_later i is e h = rw h refl

not_free :
    (e : Exchange) (i : ℕ) → is_free e i ≡ false → (i ≡ e.published_index) ⊎ (e.readers i ≢ 0)
not_free e i h = ground arith

abbrev at_round : SnapshotView → System → ℕ → System
at_round v s i = record s { writer = Writer.scanning v s.exchange.published_index i }

module _ (p a : ℕ) (s : System) (v : SnapshotView) where
  -- The state after the call, where `d` is what the loop found.
  abbrev EndsAt : ℕ → Type 0
  EndsAt d = Reach p a (after_publish v s (publish_to v s.exchange d))

  -- The copy and the announcement.
  finish_call :
      (i : ℕ) → i < slot_count → is_free s.exchange i ≡ true → Reach p a (at_round v s i) → EndsAt i
  finish_call i h free r =
      let chosen = Reach.then r (
        choose v s.exchange.published_index i refl h (ground (arith, free))
          (ground (arith, free))) in
      subst
        (λ b. Reach p a (
          after_publish v s (
            if b then (false, drop_publish s.exchange) else (
              true,
              record (s.exchange) {
                slots = put i (write_slot v (s.exchange.slots i)) s.exchange.slots;
                published_index = i;
              },
            ))))
        {x = false} {y = i == no_slot} (ground (arith, h))
        (Reach.then (Reach.then chosen (finish_copy v i refl)) (announce v i refl))

  -- One round of the loop, where `is` are the indices that are left.
  one_round :
      (i : ℕ) (is : List ℕ)
      → i < slot_count
      → (Reach p a (at_round v s (i + 1)) → EndsAt (first_free is s.exchange))
      → Reach p a (at_round v s i)
      → EndsAt (first_free (i ∷ is) s.exchange)
  one_round i is h next r = elim (Bool-cases (is_free s.exchange i)) [
    | inl free ↦ subst EndsAt (sym (first_free_here i is s.exchange free)) (finish_call i h free r)
    | inr busy ↦ subst EndsAt (sym (first_free_later i is s.exchange busy)) (
        next
          (Reach.then r (skip v s.exchange.published_index i refl h (not_free s.exchange i busy))))
  ]

  -- A call of `publish` with no access of a reader in between is a run of the step relation.
  pub publish-Reach :
      Reach p a s → s.writer ≡ Writer.resting → Reach p a (after_publish v s (publish v s.exchange))
  publish-Reach r e = elim (Bool-cases (fits v s.exchange)) [
    | inl h ↦
        subst (λ x. Reach p a (after_publish v s x)) (sym (publish_fitting v s.exchange h))
          (one_round 0 (1 ∷ 2 ∷ []) (omega arith)
            (one_round 1 (2 ∷ []) (omega arith) (
              one_round 2 [] (omega arith)
                (λ q. Reach.then q (all_busy v s.exchange.published_index refl))))
            (Reach.then r (begin v e h)))
    | inr h ↦
        subst (λ x. Reach p a (after_publish v s x)) (sym (publish_not_fitting v s.exchange h))
          (Reach.then r (too_large v e h))
  ]

acquire-none : (e : Exchange) → (e.published_index == no_slot) ≡ true → acquire e ≡ (none, e)
unfolding acquire
acquire-none e h = rw h refl

pub acquire-some :
    (e : Exchange)
    → (e.published_index == no_slot) ≡ false
    → acquire e ≡ (some e.published_index, enter e.published_index e)
unfolding acquire
acquire-some e h = rw h refl

-- A call of `acquire` with no access of the writer in between is a run of the step relation.
pub acquire-Reach :
    (p a : ℕ) (s : System) (before after : List Reader)
    → Reach p a s
    → s.readers ≡ before ++ (Reader.resting ∷ after)
    → Reach p a (after_acquire s before after (acquire s.exchange))
acquire-Reach p a s before after r e =
    let k = s.exchange.published_index in
    let loaded = Reach.then r (read before after e load) in
    elim (Bool-cases (k == no_slot)) [
      | inl h ↦
          subst (λ x. Reach p a (after_acquire s before after x)) (sym (acquire-none s.exchange h))
            (Reach.then loaded (
              read before after (ap (λ i. before ++ (Reader.loaded i ∷ after)) (ground (arith, h)))
                nothing_yet))
      | inr h ↦
          subst (λ x. Reach p a (after_acquire s before after x)) (sym (acquire-some s.exchange h))
            (Reach.then (Reach.then loaded (read before after refl (count k (ground (arith, h)))))
              (read before after refl (confirm k refl)))
    ]
