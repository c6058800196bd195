-- ===== src/App/Tick/Stop.antt =====
-- components/smoker_app/src/smoker_application.cpp: a cycle and the queue of commands; a manual Stop
-- gives a cycle of its own.
use smoker_firmware.Common.{◌<◌, [], ◌∷◌, true, false, arith, ◌≡◌, refl, sym, ap, ◌∙◌, subst}
use smoker_firmware.Core.Domain.{TimePoint, off}
use smoker_firmware.App.Commands.{Ports, clock_now}
use smoker_firmware.App.State.{App, CommandQueue, session_running, drop_oldest}
use smoker_firmware.App.Queue.Ring.{contents, IsRing}
use smoker_firmware.App.Session.{update_active_timer}
use smoker_firmware.App.Drain.{manual_stop_barrier, process_pending_commands}
use smoker_firmware.App.Drain.Order.{process_pending_commands-IsRing}
use smoker_firmware.App.Drain.Stop.{process_pending_commands_stop}
use smoker_firmware.App.Probes.{evaluate_probe_states, acquire_raw_inputs}
use smoker_firmware.App.Tick.Writes.{heater_writes, tick-writes}
use smoker_firmware.App.Tick.{
  report_overflow, update_session_elapsed, write_heater, control_heater, update_inputs,
  publish_pending_events, refresh_snapshot_view_cache, tick,
}
use smoker_firmware.App.Tick.QueueFrame.{
  IsQuiet, IsQuiet-trans, evaluate_each-IsQuiet, update_session_timer-IsQuiet, before_write,
  before_write-IsQuiet, write_heater_stopped,
}

-- The queue but for the count of reported overflows.
record IsSameQueue (p q : CommandQueue) : Type 0 where
  same_commands : q.commands ≡ p.commands
  same_head : q.head ≡ p.head
  same_tail : q.tail ≡ p.tail
  same_count : q.count ≡ p.count

-- The counts that the ring does not depend on, put into another queue.
abbrev with_counts : CommandQueue → CommandQueue → CommandQueue
with_counts p q = record p {
  overflow_count = q.overflow_count;
  reported_overflow_count = q.reported_overflow_count;
}

IsSameQueue-path : {p q : CommandQueue} → IsSameQueue p q → q ≡ with_counts p q
IsSameQueue-path {p} {q} s = λ i. record {
  commands = s.same_commands i;
  head = s.same_head i;
  tail = s.same_tail i;
  count = s.same_count i;
  overflow_count = q.overflow_count;
  reported_overflow_count = q.reported_overflow_count;
}

IsSameQueue-IsRing : {p q : CommandQueue} → IsSameQueue p q → IsRing p → IsRing q
IsSameQueue-IsRing {p} {q} s v = subst IsRing (sym (IsSameQueue-path s)) (record {
  full = v.full;
  head_in = v.head_in;
  tail_at = v.tail_at;
  count_in = v.count_in;
  filled = v.filled;
  last_stop = v.last_stop;
})

IsSameQueue-contents : {p q : CommandQueue} → IsSameQueue p q → contents q ≡ contents p
IsSameQueue-contents s = ap contents (IsSameQueue-path s)

report_overflow-IsSameQueue :
    (now : TimePoint) (a : App) → IsSameQueue a.queue (report_overflow now a).queue
unfolding report_overflow
report_overflow-IsSameQueue now a = ground arith

report_overflow-session : (now : TimePoint) (a : App) → (report_overflow now a).session ≡ a.session
unfolding report_overflow
report_overflow-session now a = ground arith

-- The state in which the commands run.
commands_input : Ports → App → App
commands_input ports a =
    let now = ports.now a.calls in
    acquire_raw_inputs ports
      (report_overflow now (record a { pending_events = []; calls = clock_now now ∷ a.calls }))

after_commands-IsQuiet :
    (now : TimePoint) (a : App)
    → IsQuiet a (update_session_elapsed now (update_active_timer now (evaluate_probe_states now a)))
unfolding update_session_elapsed update_active_timer evaluate_probe_states
after_commands-IsQuiet now a =
    let e = evaluate_each-IsQuiet a.probes now a in
    let b = evaluate_probe_states now a in
    let t = update_session_timer-IsQuiet b.session now b refl in ground arith

tick-IsQuiet :
    (ports : Ports) (a : App)
    → IsQuiet (process_pending_commands (ports.now a.calls) (commands_input ports a)) (tick ports a)
unfolding tick commands_input update_inputs control_heater write_heater before_write
    publish_pending_events refresh_snapshot_view_cache
tick-IsQuiet ports a =
    let now = ports.now a.calls in
    let c = process_pending_commands now (commands_input ports a) in
    let one = after_commands-IsQuiet now c in
    let two =
      before_write-IsQuiet ports now
        (update_session_elapsed now (update_active_timer now (evaluate_probe_states now c))) in
    let all = IsQuiet-trans one two in record { queue = all.queue; stays = all.stays }

commands_input-IsSameQueue :
    (ports : Ports) (a : App) → IsSameQueue a.queue (commands_input ports a).queue
unfolding commands_input acquire_raw_inputs
commands_input-IsSameQueue ports a = report_overflow-IsSameQueue (ports.now a.calls) _

commands_input-session : (ports : Ports) (a : App) → (commands_input ports a).session ≡ a.session
unfolding commands_input acquire_raw_inputs
commands_input-session ports a = report_overflow-session (ports.now a.calls) _

commands_input-barrier :
    (ports : Ports) (a : App) → manual_stop_barrier (commands_input ports a) ≡ manual_stop_barrier a
unfolding manual_stop_barrier
commands_input-barrier ports a =
    let s = commands_input-IsSameQueue ports a in
    cc (s.same_commands, s.same_head, commands_input-session ports a)

-- A control cycle keeps the ring of commands.
pub tick-IsRing : (ports : Ports) (a : App) → IsRing a.queue → IsRing (tick ports a).queue
tick-IsRing ports a v = subst IsRing (sym (tick-IsQuiet ports a).queue) (
    process_pending_commands-IsRing (ports.now a.calls) (commands_input ports a)
      (IsSameQueue-IsRing (commands_input-IsSameQueue ports a) v))

write_stopped :
    (ports : Ports) (a : App)
    → session_running (tick ports a).session ≡ false
    → (tick ports a).heater_demand ≡ off
unfolding tick control_heater write_heater publish_pending_events refresh_snapshot_view_cache
write_stopped ports a h = write_heater_stopped _ _ h

-- With a running session and a Stop as its oldest command, a cycle writes OFF once to the heater port
-- and nothing else, ends with no running session, and leaves every later command in the queue, a
-- Start among them.
pub tick_stop :
    (ports : Ports) (a : App)
    → IsRing a.queue
    → 0 < a.queue.count
    → manual_stop_barrier a ≡ true
    → (heater_writes (tick ports a).calls ≡ off ∷ heater_writes a.calls)
      × ((tick ports a).heater_demand ≡ off)
      × (session_running (tick ports a).session ≡ false)
      × (contents (tick ports a).queue ≡ drop_oldest (contents a.queue))
tick_stop ports a v p e =
    let s = commands_input-IsSameQueue ports a in
    let stopped =
      process_pending_commands_stop (ports.now a.calls) (commands_input ports a)
        (IsSameQueue-IsRing s v) (omega (arith, s.same_count))
        (commands_input-barrier ports a ∙ e) in
    let quiet = tick-IsQuiet ports a in
    let off_after = quiet.stays stopped.0 in
    let demand = write_stopped ports a off_after in
    (
      tick-writes ports a ∙ ap (λ d. d ∷ heater_writes a.calls) demand,
      demand,
      off_after,
      ap contents quiet.queue ∙ stopped.1 ∙ ap drop_oldest (IsSameQueue-contents s),
    )
