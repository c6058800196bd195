-- ===== src/App/Drain/Stop.antt =====
-- components/smoker_app/src/smoker_application.cpp: the loop over the queued commands ends, and a
-- Stop that ends a session ends the cycle's commands with it.
use smoker_firmware.Common.{
  ℕ, zero, suc, ◌≤◌, ◌<◌, true, false, arith, ltb, ◌≡◌, refl, ap, ◌∙◌, Bool-cases, Option-cases,
  ◌⊎◌, inl, inr,
}
use smoker_firmware.Core.Domain.{TimePoint, StopReason}
use smoker_firmware.App.Commands.{Command, is_stop}
use smoker_firmware.App.State.{App, QueuedCommand, session_running, drop_oldest}
use smoker_firmware.App.Queue.{slot}
use smoker_firmware.App.Queue.Ring.{contents, IsRing}
use smoker_firmware.App.Handlers.{process_stop, process}
use smoker_firmware.App.Drain.{
  run_command, run_slot, run_head, manual_stop_barrier, drain, process_pending_commands,
}
use smoker_firmware.App.Drain.Order.{run_head-IsRest}
use smoker_firmware.App.Invariant.Handlers.{stopped-quiet}
use smoker_firmware.App.Invariant.Cycle.{
  IsSame-trans, record_command_result-IsSame, record_all-IsSame,
}

process_stop_ends :
    (now : TimePoint) (a : App)
    → session_running a.session ≡ true
    → session_running (process_stop now a).session ≡ false
unfolding process_stop
process_stop_ends now a on = rw on (stopped-quiet StopReason.user now a.safety_limits a.session).0

process-is_stop :
    (m : Command) (now : TimePoint) (a : App)
    → is_stop m ≡ true
    → process m now a ≡ process_stop now a
unfolding process
process-is_stop Command.stop_session now a e = refl
process-is_stop m now a e = absurd (cc)

run_command_stop :
    (c : QueuedCommand) (now : TimePoint) (a : App)
    → is_stop c.command ≡ true
    → session_running a.session ≡ true
    → session_running (run_command c now a).session ≡ false
unfolding run_command
run_command_stop c now a e on =
    let b : App = record a { current_command_rejected = false } in
    ap session_running
      (IsSame-trans (record_command_result-IsSame c.correlation_id _ (process c.command now b))
        (record_all-IsSame c.coalesced_correlation_ids _ _)).session
    ∙ ap (λ (x : App). session_running x.session) (process-is_stop c.command now b e)
    ∙ process_stop_ends now b on

run_head_stop :
    (now : TimePoint) (a : App)
    → manual_stop_barrier a ≡ true
    → session_running (run_head now a).session ≡ false
unfolding run_head run_slot manual_stop_barrier
run_head_stop now a e = elim (Option-cases (slot a.queue a.queue.head)) [
  | inl gone ↦ absurd (ground arith)
  | inr (c, here) ↦ rw (here, run_slot) (run_command_stop c now a (ground arith) (ground arith))
]

drain_ends :
    (fuel : ℕ) (now : TimePoint) (a : App)
    → IsRing a.queue
    → a.queue.count ≤ fuel
    → ((drain fuel now a).queue.count ≡ 0) ⊎ (session_running (drain fuel now a).session ≡ false)
unfolding drain
drain_ends zero now a v h = inl (omega arith)
drain_ends (suc fuel) now a v h = elim (Bool-cases (ltb 0 a.queue.count)) [
  | inl more ↦
      let r = run_head-IsRest now a v (ground arith) in
      elim (Bool-cases (manual_stop_barrier a)) [
        | inl stop ↦ rw (more, stop) (inr (run_head_stop now a stop))
        | inr on ↦
            rw (more, on) (drain_ends fuel now (run_head now a) r.ring (omega (arith, r.fewer)))
      ]
  | inr done ↦ rw done (inl (ground arith))
]

-- `while (command_count_ > 0)` without fuel: its test, and the return at a Stop that ends a session.
pub data Runs (now : TimePoint) : App → App → Type 0 where
  at_end : {a : App} → a.queue.count ≡ 0 → Runs now a a
  at_barrier :
      {a : App} → 0 < a.queue.count → manual_stop_barrier a ≡ true → Runs now a (run_head now a)
  onward :
      {a b : App}
      → 0 < a.queue.count
      → manual_stop_barrier a ≡ false
      → Runs now (run_head now a) b
      → Runs now a b

drain-Runs :
    (fuel : ℕ) (now : TimePoint) (a : App)
    → IsRing a.queue
    → a.queue.count ≤ fuel
    → Runs now a (drain fuel now a)
unfolding drain
drain-Runs zero now a v h = Runs.at_end (omega arith)
drain-Runs (suc fuel) now a v h = elim (Bool-cases (ltb 0 a.queue.count)) [
  | inl more ↦
      let r = run_head-IsRest now a v (ground arith) in
      elim (Bool-cases (manual_stop_barrier a)) [
        | inl stop ↦ rw (more, stop) (Runs.at_barrier (ground arith) stop)
        | inr on ↦
            rw (more, on)
              (Runs.onward (ground arith) on
                (drain-Runs fuel now (run_head now a) r.ring (omega (arith, r.fewer))))
      ]
  | inr done ↦ rw done (Runs.at_end (ground arith))
]

-- The loop of a cycle runs to its end: from a well-formed ring, as many rounds as there are commands
-- suffice for the loop to leave by its own tests. It executes command after command until the queue
-- is empty or a Stop that ends a session has been executed; so it leaves an empty queue, or else a
-- session that no longer runs.
pub process_pending_commands_ends :
    (now : TimePoint) (a : App)
    → IsRing a.queue
    → Runs now a (process_pending_commands now a)
      × (((process_pending_commands now a).queue.count ≡ 0)
          ⊎ (session_running (process_pending_commands now a).session ≡ false))
unfolding process_pending_commands
process_pending_commands_ends now a v =
    (drain-Runs a.queue.count now a v (omega arith), drain_ends a.queue.count now a v (omega arith))

drain_stop :
    (fuel : ℕ) (now : TimePoint) (a : App)
    → 0 < a.queue.count
    → a.queue.count ≤ fuel
    → manual_stop_barrier a ≡ true
    → drain fuel now a ≡ run_head now a
unfolding drain
drain_stop zero now a p h e = absurd (omega arith)
drain_stop (suc fuel) now a p h e =
    let more : ltb 0 a.queue.count ≡ true = ground arith in rw (more, e)

-- With a running session and a Stop as the oldest command, the cycle executes that Stop alone: the
-- session no longer runs and all other commands stay queued.
pub process_pending_commands_stop :
    (now : TimePoint) (a : App)
    → IsRing a.queue
    → 0 < a.queue.count
    → manual_stop_barrier a ≡ true
    → (session_running (process_pending_commands now a).session ≡ false)
      × (contents (process_pending_commands now a).queue ≡ drop_oldest (contents a.queue))
unfolding process_pending_commands
process_pending_commands_stop now a v p e =
    let one = drain_stop a.queue.count now a p (omega arith) e in
    (
      ap (λ (x : App). session_running x.session) one ∙ run_head_stop now a e,
      ap (λ (x : App). contents x.queue) one ∙ (run_head-IsRest now a v p).rest,
    )
