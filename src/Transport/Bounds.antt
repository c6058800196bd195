-- ===== src/Transport/Bounds.antt =====
-- components/smoker_platform/src/runtime_transport_support.cpp: what one `drain` takes.
use smoker_firmware.Common.{
  ℕ, zero, suc, ◌+◌, ◌≤◌, ◌≡◌, ◌⊎◌, inl, inr, refl, ap, Bool, true, false, not, Bool-cases, Option,
  none, some, arith, ltb,
}
use smoker_firmware.App.Commands.{Command}
use smoker_firmware.Mailbox.{TransportCommand}
use smoker_firmware.Transport.{
  Draining, external_budget_per_cycle, pop, with_source, or_alternate, take_next, is_stale, deliver,
  deliver_next, round, drain_loop,
}

module _ {S : Type 0} where
  abbrev pub taken : Draining S → ℕ
  taken d = d.submitted + d.discarded

  -- Popping changes only the mailboxes.
  pub record IsPopped (d e : Draining S) : Type 0 where
    pub submitted : e.submitted ≡ d.submitted
    pub discarded : e.discarded ≡ d.discarded
    pub context : e.context ≡ d.context

  pop-IsPopped : (b : Bool) (d e : Draining S) → IsPopped d e → IsPopped d (pop b e).1
  unfolding pop
  pop-IsPopped true d e h = record {
    submitted = h.submitted;
    discarded = h.discarded;
    context = h.context;
  }
  pop-IsPopped false d e h = record {
    submitted = h.submitted;
    discarded = h.discarded;
    context = h.context;
  }

  with_source-IsPopped :
      (b : Bool) (d : Draining S) (r : Option TransportCommand × Draining S)
      → IsPopped d r.1
      → IsPopped d (with_source b r).1
  with_source-IsPopped b d (some c, e) h = h
  with_source-IsPopped b d (none, e) h = h

  or_alternate-IsPopped :
      (b : Bool) (d : Draining S) (r : Option TransportCommand × Draining S)
      → IsPopped d r.1
      → IsPopped d (or_alternate b r).1
  unfolding or_alternate
  or_alternate-IsPopped b d (some c, e) h = h
  or_alternate-IsPopped b d (none, e) h =
      with_source-IsPopped (not b) d (pop (not b) e) (pop-IsPopped (not b) d e h)

  take_next-IsPopped : (d : Draining S) → IsPopped d (take_next d).1
  unfolding take_next
  take_next-IsPopped d = or_alternate-IsPopped d.blynk_first d (pop d.blynk_first d) (
      pop-IsPopped d.blynk_first d d
        (record { submitted = refl; discarded = refl; context = refl }))

  -- The round ended the loop: it found no command, or delivered a Stop.
  abbrev pub IsLast : Draining S → Draining S → Type 0
  IsLast d e = (((take_next d).0 ≡ none) × (e ≡ (take_next d).1)) ⊎ (e.stopped_at_barrier ≡ true)

  -- Why the loop ended, for the state `e` after it.
  abbrev pub IsDrained : Draining S → Type 0
  IsDrained e = (taken e ≡ external_budget_per_cycle) ⊎ ((d : Draining S) × IsLast d e)

  module _ (send : S → Command → ℕ → S) (validate : Option (ℕ → Bool)) where
    -- A command counts once, and the loop goes on unless it was a Stop that was submitted.
    deliver-taken :
        (b : Bool) (c : TransportCommand) (d : Draining S)
        → taken (deliver send validate b c d).1 ≡ taken d + 1
    unfolding deliver
    deliver-taken b c d = elim (Bool-cases (is_stale send validate b c.transport_generation)) [
      | inl h ↦ rw h (omega arith)
      | inr h ↦ rw h (omega arith)
    ]

    deliver-stopped :
        (b : Bool) (c : TransportCommand) (d : Draining S)
        → (deliver send validate b c d).0 ≡ false
        → (deliver send validate b c d).1.stopped_at_barrier ≡ true
    unfolding deliver
    deliver-stopped b c d = ground arith

    deliver_next-taken :
        (d : Draining S) (r : Option (Bool × TransportCommand) × Draining S)
        → IsPopped d r.1
        → (deliver_next send validate r).0 ≡ true
        → taken (deliver_next send validate r).1 ≡ taken d + 1
    unfolding deliver_next
    deliver_next-taken d (some (b, c), e) h go =
        omega (arith, deliver-taken b c e, h.submitted, h.discarded)
    deliver_next-taken d (none, e) h go = ground (arith, go)

    deliver_next-ends :
        (d : Draining S) (r : Option (Bool × TransportCommand) × Draining S)
        → (deliver_next send validate r).0 ≡ false
        → ((r.0 ≡ none) × ((deliver_next send validate r).1 ≡ r.1))
          ⊎ ((deliver_next send validate r).1.stopped_at_barrier ≡ true)
    unfolding deliver_next
    deliver_next-ends d (some (b, c), e) stop = inr (deliver-stopped b c e stop)
    deliver_next-ends d (none, e) stop = inl (refl, refl)

    round-taken :
        (d : Draining S)
        → (round send validate d).0 ≡ true
        → taken (round send validate d).1 ≡ taken d + 1
    unfolding round
    round-taken d go = deliver_next-taken d (take_next d) (take_next-IsPopped d) go

    deliver_next-le :
        (d : Draining S) (r : Option (Bool × TransportCommand) × Draining S)
        → IsPopped d r.1
        → taken (deliver_next send validate r).1 ≤ taken d + 1
    unfolding deliver_next
    deliver_next-le d (some (b, c), e) h =
        omega (arith, deliver-taken b c e, h.submitted, h.discarded)
    deliver_next-le d (none, e) h = omega (arith, h.submitted, h.discarded)

    -- A round never counts more than one command.
    round-le : (d : Draining S) → taken (round send validate d).1 ≤ taken d + 1
    unfolding round
    round-le d = deliver_next-le d (take_next d) (take_next-IsPopped d)

    round-IsLast :
        (d : Draining S) → (round send validate d).0 ≡ false → IsLast d (round send validate d).1
    unfolding round
    round-IsLast d stop = deliver_next-ends d (take_next d) stop

    -- Fuel for the rest of the budget is enough, and the budget is kept.
    pub drain_loop-IsDrained :
        (fuel : ℕ) (d : Draining S)
        → taken d + fuel ≡ external_budget_per_cycle
        → IsDrained (drain_loop send validate fuel d)
          × (taken (drain_loop send validate fuel d) ≤ external_budget_per_cycle)
    unfolding drain_loop
    drain_loop-IsDrained zero d h = (inl (omega (arith, h)), omega (arith, h))
    drain_loop-IsDrained (suc fuel) d h =
        let open_ : ltb (taken d) external_budget_per_cycle ≡ true = ground (arith, h) in
        elim (Bool-cases (round send validate d).0) [
          | inl go ↦
              rw (open_, go)
                (drain_loop-IsDrained fuel (round send validate d).1
                  (omega (arith, h, round-taken d go)))
          | inr stop ↦ rw (open_, stop) (inr (d, round-IsLast d stop), omega (arith, h, round-le d))
        ]

    -- What the submit function piles up: at most one for each command that is submitted.
    module _ (size : S → ℕ)
        (grows : (x : S) (c : Command) (id : ℕ) → size (send x c id) ≤ size x + 1) where
      abbrev pub IsGrown : Draining S → Draining S → Type 0
      IsGrown d e = size e.context + d.submitted ≤ size d.context + e.submitted

      deliver-IsGrown :
          (b : Bool) (c : TransportCommand) (d : Draining S)
          → IsGrown d (deliver send validate b c d).1
      unfolding deliver
      deliver-IsGrown b c d = elim (Bool-cases (is_stale send validate b c.transport_generation)) [
        | inl h ↦ rw h (omega arith)
        | inr h ↦ rw h (omega (arith, grows d.context c.command c.correlation_id))
      ]

      deliver_next-IsGrown :
          (d : Draining S) (r : Option (Bool × TransportCommand) × Draining S)
          → IsPopped d r.1
          → IsGrown d (deliver_next send validate r).1
      unfolding deliver_next
      deliver_next-IsGrown d (some (b, c), e) h =
          omega (arith, deliver-IsGrown b c e, h.submitted, ap size h.context)
      deliver_next-IsGrown d (none, e) h = omega (arith, h.submitted, ap size h.context)

      round-IsGrown : (d : Draining S) → IsGrown d (round send validate d).1
      unfolding round
      round-IsGrown d = deliver_next-IsGrown d (take_next d) (take_next-IsPopped d)

      pub drain_loop-IsGrown :
          (fuel : ℕ) (d : Draining S) → IsGrown d (drain_loop send validate fuel d)
      unfolding drain_loop
      drain_loop-IsGrown zero d = omega arith
      drain_loop-IsGrown (suc fuel) d =
          let e : Draining S = (round send validate d).1 in
          elim (Bool-cases (ltb (taken d) external_budget_per_cycle)) [
            | inr full ↦ rw full (omega arith)
            | inl room ↦ elim (Bool-cases (round send validate d).0) [
              | inl go ↦ rw (room, go) (omega (arith, round-IsGrown d, drain_loop-IsGrown fuel e))
              | inr stop ↦ rw (room, stop) (round-IsGrown d)
            ]
          ]
