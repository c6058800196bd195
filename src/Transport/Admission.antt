-- ===== src/Transport/Admission.antt =====
-- components/smoker_platform/src/runtime_transport_support.cpp: `drain` into the application's queue.
use smoker_firmware.Common.{
  ℕ, ◌+◌, ◌≤◌, ◌<◌, ◌≡◌, inl, inr, refl, Bool, true, false, ◌&&◌, Bool-cases, Option, Option-cases,
  length, ap, some, ◌==◌, leb, arith,
}
use smoker_firmware.App.Commands.{Command, is_stop, command_result_capacity}
use smoker_firmware.App.State.{
  App, CommandQueue, u32, regular_command_capacity, record_command_result,
}
use smoker_firmware.App.Queue.{
  submit, enqueue, slot, previous, coalesce_trailing, trailing_stop_is_pending, admission_limit,
}
use smoker_firmware.Mailbox.{Mailbox}
use smoker_firmware.Transport.{Draining, external_budget_per_cycle, drain_mailboxes, begin_drain}
use smoker_firmware.Transport.Bounds.{taken, IsDrained, drain_loop-IsDrained, drain_loop-IsGrown}

-- The submit function that the control task passes: the answer is ignored.
abbrev pub send_to_app : App → Command → ℕ → App
send_to_app a m id = (submit m id a).0

coalesce_trailing-count : (id : ℕ) (q : CommandQueue) → (coalesce_trailing id q).count ≡ q.count
unfolding coalesce_trailing
coalesce_trailing-count id q = elim (Option-cases (slot q (previous q.tail))) [
  | inl e ↦ rw (e, coalesce_trailing) refl
  | inr (c, e) ↦ rw (e, coalesce_trailing) refl
]

enqueue-count : (m : Command) (id : ℕ) (q : CommandQueue) → (enqueue m id q).count ≤ q.count + 1
unfolding enqueue
enqueue-count m id q = omega arith

record_command_result-queue :
    (id : ℕ) (accepted : Bool) (a : App) → (record_command_result id accepted a).queue ≡ a.queue
unfolding record_command_result
record_command_result-queue id accepted a = elim (Bool-cases (id == 0)) [
  | inl h ↦ rw h refl
  | inr h ↦ elim (Bool-cases (length a.command_results == command_result_capacity)) [
    | inl k ↦ rw (h, k) refl
    | inr k ↦ rw (h, k) refl
  ]
]

-- A submission adds one command at most.
submit-count : (a : App) (m : Command) (id : ℕ) → (submit m id a).0.queue.count ≤ a.queue.count + 1
unfolding submit
submit-count a m id = elim (Bool-cases (is_stop m && trailing_stop_is_pending a.queue)) [
  | inl joins ↦ elim (Bool-cases (id == 0)) [
    | inl quiet ↦ rw (joins, quiet) (omega arith)
    | inr tagged ↦ rw (joins, tagged) (omega (arith, coalesce_trailing-count id a.queue))
  ]
  | inr apart ↦ elim (Bool-cases (leb (admission_limit m) a.queue.count)) [
    | inl full ↦
        rw (apart, full)
          (omega (
            arith,
            ap (λ (q : CommandQueue). q.count)
                (record_command_result-queue id false (record a {
                  queue = record (a.queue) { overflow_count = u32 (a.queue.overflow_count + 1) };
                })),
          ))
    | inr room ↦ rw (apart, room) (enqueue-count m id a.queue)
  ]
]

submit-accepted :
    (a : App) (m : Command) (id : ℕ)
    → a.queue.count < regular_command_capacity
    → (submit m id a).1 ≡ true
unfolding submit
submit-accepted a m id h = ground arith

-- For any commands in the two mailboxes: one `drain` takes 13 commands at most, and it ends by its
-- own tests, because it took 13, found both mailboxes without a command, or submitted a Stop.
drain_mailboxes_ends :
    {S : Type 0} (send : S → Command → ℕ → S) (validate : Option (ℕ → Bool)) (http blynk : Mailbox)
    (first : Bool) (context : S)
    → IsDrained (drain_mailboxes (some send) validate (begin_drain http blynk first context))
      × (taken (drain_mailboxes (some send) validate (begin_drain http blynk first context))
          ≤ external_budget_per_cycle)
unfolding drain_mailboxes
drain_mailboxes_ends send validate http blynk first context =
    drain_loop-IsDrained send validate external_budget_per_cycle
      (begin_drain http blynk first context) refl

-- The state of the application after a `drain` into it.
abbrev pub drained_app : Option (ℕ → Bool) → Mailbox → Mailbox → Bool → App → App
drained_app validate http blynk first a =
    (drain_mailboxes (some send_to_app) validate (begin_drain http blynk first a)).context

drained-count :
    (validate : Option (ℕ → Bool)) (http blynk : Mailbox) (first : Bool) (a : App)
    → a.queue.count ≡ 0
    → (drained_app validate http blynk first a).queue.count ≤ external_budget_per_cycle
unfolding drain_mailboxes
drained-count validate http blynk first a h =
    let d : Draining App = begin_drain http blynk first a in
    omega (
      arith,
      h,
      (drain_loop-IsDrained send_to_app validate external_budget_per_cycle d refl).1,
      drain_loop-IsGrown send_to_app validate (λ (b : App). b.queue.count) submit-count
          external_budget_per_cycle d,
    )

-- After a `drain` into an application whose queue was empty, two more commands are accepted, of
-- whatever kind: what the mailboxes hold cannot keep the updater's own two commands out.
pub drain-submit-submit :
    (validate : Option (ℕ → Bool)) (http blynk : Mailbox) (first : Bool) (a : App) (m n : Command)
    (i j : ℕ)
    → a.queue.count ≡ 0
    → ((submit m i (drained_app validate http blynk first a)).1 ≡ true)
      × ((submit n j (submit m i (drained_app validate http blynk first a)).0).1 ≡ true)
drain-submit-submit validate http blynk first a m n i j h =
    let b : App = drained_app validate http blynk first a in
    let few : b.queue.count ≤ external_budget_per_cycle =
      drained-count validate http blynk first a h in
    (
      submit-accepted b m i (omega (arith, few)),
      submit-accepted (submit m i b).0 n j (omega (arith, few, submit-count b m i)),
    )
