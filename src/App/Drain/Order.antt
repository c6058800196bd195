-- ===== src/App/Drain/Order.antt =====
-- components/smoker_app/src/smoker_application.cpp: `process_pending_commands` takes the queued
-- commands in order.
use smoker_firmware.Common.{
  ℕ, zero, suc, ◌+◌, ◌-◌, ◌%◌, ◌≤◌, ◌<◌, List, [], ◌∷◌, Bool, false, Option, none, some, arith, ltb,
  ◌≡◌, refl, sym, ap, ◌∙◌, subst, set, All, length-set, Bool-cases, inl, inr,
}
use smoker_firmware.Core.Domain.{TimePoint, Session, Recipe}
use smoker_firmware.App.Commands.{Command}
use smoker_firmware.App.State.{
  App, QueuedCommand, CommandQueue, command_capacity, record_command_result, drop_oldest,
}
use smoker_firmware.App.Queue.{slot, next, dequeue}
use smoker_firmware.App.Queue.Ring.{Slots, window, contents, window-set_outside, IsCommand, IsRing}
use smoker_firmware.App.Queue.Refine.{record_command_result-queue}
use smoker_firmware.App.Handlers.{
  start_refused, put_recipe, retire_recipe, process_start, process_stop, process_set_chamber_target,
  process_set_probe_target, process_set_probe_enabled, process_set_probe_alarm_enabled,
  process_acknowledge_alarm, process_clear_resolved_fault, process_prepare_firmware_update,
  process_finish_firmware_update, process,
}
use smoker_firmware.App.Drain.{
  record_all, run_command, run_slot, run_head, manual_stop_barrier, drain, process_pending_commands,
}

-- The queue after a command: the same, but for what the slot at the head holds.
data IsHeadChange (q : CommandQueue) : CommandQueue → Type 0 where
  kept : IsHeadChange q q
  written :
      (c : Option QueuedCommand) → IsHeadChange q (record q { commands = set q.commands q.head c })

put_recipe-IsHeadChange :
    (c : Option QueuedCommand) (id : ℕ) (old : Recipe) (q : CommandQueue)
    → IsHeadChange q (put_recipe c id old q)
put_recipe-IsHeadChange none id old q = kept
put_recipe-IsHeadChange (some c) id old q = written _

retire_recipe-IsHeadChange :
    (o : Option Session) (id : ℕ) (q : CommandQueue) → IsHeadChange q (retire_recipe o id q)
retire_recipe-IsHeadChange none id q = kept
retire_recipe-IsHeadChange (some s) id q =
    put_recipe-IsHeadChange (slot q q.head) id s.recipe_snapshot q

same-IsHeadChange : {p q : CommandQueue} → q ≡ p → IsHeadChange p q
same-IsHeadChange {p} e = subst (IsHeadChange p) (sym e) kept

start-IsHeadChange :
    (id : ℕ) (r : Recipe) (now : TimePoint) (a : App)
    → IsHeadChange a.queue (process_start id r now a).queue
unfolding process_start
start-IsHeadChange id r now a = elim (Bool-cases (start_refused a r)) [
  | inl refused ↦ rw refused kept
  | inr accepted ↦ rw accepted (retire_recipe-IsHeadChange a.session id a.queue)
]

-- The commands but Start leave the queue alone.
process-IsHeadChange :
    (m : Command) (now : TimePoint) (a : App) → IsHeadChange a.queue (process m now a).queue
unfolding process process_stop process_set_chamber_target process_set_probe_target
    process_set_probe_enabled process_set_probe_alarm_enabled process_acknowledge_alarm
    process_clear_resolved_fault process_prepare_firmware_update process_finish_firmware_update
process-IsHeadChange (Command.start_session id r) now a = start-IsHeadChange id r now a
process-IsHeadChange m now a = same-IsHeadChange (ground arith)

record_all-queue : (ids : List ℕ) (ok : Bool) (a : App) → (record_all ids ok a).queue ≡ a.queue
unfolding record_all
record_all-queue [] ok a = refl
record_all-queue (id ∷ ids) ok a =
    record_all-queue ids ok (record_command_result id ok a) ∙ record_command_result-queue id ok a

run_slot-IsHeadChange :
    (c : Option QueuedCommand) (now : TimePoint) (a : App)
    → IsHeadChange a.queue (run_slot c now a).queue
unfolding run_slot run_command
run_slot-IsHeadChange none now a = kept
run_slot-IsHeadChange (some c) now a =
    subst (IsHeadChange a.queue)
      (sym (
        record_all-queue c.coalesced_correlation_ids _ _
        ∙ record_command_result-queue c.correlation_id _ _))
      (process-IsHeadChange c.command now (record a { current_command_rejected = false }))

-- Whatever the head slot holds afterwards, the queue without it is the rest of the old one.
pub record IsRest (q r : CommandQueue) : Type 0 where
  pub ring : IsRing r
  pub rest : contents r ≡ drop_oldest (contents q)
  pub fewer : r.count + 1 ≡ q.count

window-tail :
    (cs : Slots) (h n : ℕ) → 0 < n → window cs (next h) (n - 1) ≡ drop_oldest (window cs h n)
window-tail cs h zero p = absurd (omega arith)
window-tail cs h (suc n) p = ap (window cs (next h)) (omega arith)

window-tail-set_head :
    (cs : Slots) (h n : ℕ) (v : Option QueuedCommand)
    → h < command_capacity
    → 0 < n
    → n ≤ command_capacity
    → window (set cs h v) (next h) (n - 1) ≡ drop_oldest (window cs h n)
window-tail-set_head cs h n v hh p hn =
    ap (λ i. window (set cs i v) (next h) (n - 1)) {y = (next h + 15) % command_capacity}
      (omega arith)
    ∙ window-set_outside cs (next h) (n - 1) 15 v (omega arith) (omega arith) (omega arith)
    ∙ window-tail cs h n p

All-drop_oldest : (l : Slots) → All IsCommand l → All IsCommand (drop_oldest l)
All-drop_oldest [] v = v
All-drop_oldest (c ∷ l) v = v.1

dequeue-IsRest :
    (q r : CommandQueue) → IsHeadChange q r → IsRing q → 0 < q.count → IsRest q (dequeue r)
unfolding dequeue
dequeue-IsRest q r kept v p =
    let e = window-tail q.commands q.head q.count p in
    record {
      ring = record {
        full = v.full;
        head_in = omega arith;
        tail_at = omega (arith, v.tail_at);
        count_in = omega (arith, v.count_in);
        filled = subst (All IsCommand) (sym e) (All-drop_oldest (contents q) v.filled);
        last_stop = λ e. absurd (omega (arith, v.count_in));
      };
      rest = e;
      fewer = omega arith;
    }
dequeue-IsRest q r (written c) v p =
    let e = window-tail-set_head q.commands q.head q.count c v.head_in p v.count_in in
    record {
      ring = record {
        full = length-set q.commands q.head c ∙ v.full;
        head_in = omega arith;
        tail_at = omega (arith, v.tail_at);
        count_in = omega (arith, v.count_in);
        filled = subst (All IsCommand) (sym e) (All-drop_oldest (contents q) v.filled);
        last_stop = λ e. absurd (omega (arith, v.count_in));
      };
      rest = e;
      fewer = omega arith;
    }

-- A round of the loop takes exactly the oldest command from the queue, and keeps the ring.
pub run_head-IsRest :
    (now : TimePoint) (a : App)
    → IsRing a.queue
    → 0 < a.queue.count
    → IsRest a.queue (run_head now a).queue
unfolding run_head
run_head-IsRest now a v p =
    dequeue-IsRest a.queue _ (run_slot-IsHeadChange (slot a.queue a.queue.head) now a) v p

drain-IsRing :
    (fuel : ℕ) (now : TimePoint) (a : App) → IsRing a.queue → IsRing (drain fuel now a).queue
unfolding drain
drain-IsRing zero now a v = v
drain-IsRing (suc fuel) now a v = elim (Bool-cases (ltb 0 a.queue.count)) [
  | inl more ↦
      let next_ring = (run_head-IsRest now a v (ground arith)).ring in
      elim (Bool-cases (manual_stop_barrier a)) [
        | inl stop ↦ rw (more, stop) next_ring
        | inr on ↦ rw (more, on) (drain-IsRing fuel now (run_head now a) next_ring)
      ]
  | inr done ↦ rw done v
]

-- The commands of a cycle leave a ring behind.
pub process_pending_commands-IsRing :
    (now : TimePoint) (a : App) → IsRing a.queue → IsRing (process_pending_commands now a).queue
unfolding process_pending_commands
process_pending_commands-IsRing now a v = drain-IsRing a.queue.count now a v
