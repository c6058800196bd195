-- ===== src/App/Tick/Writes.antt =====
-- components/smoker_app/src/smoker_application.cpp: a cycle calls `write_heater` of the heater port once,
-- with the demand that it keeps.
use smoker_firmware.Common.{
  ℕ, zero, suc, List, [], ◌∷◌, Bool, false, Option, none, some, arith, ltb, has_value,
  if◌then◌else◌, ◌≡◌, refl, ap, ◌∙◌, Bool-cases, inl, inr,
}
use smoker_firmware.Core.Domain.{
  TimePoint, Session, is_running, StageTimer, AlarmCode, HeaterDemand, Event,
}
use smoker_firmware.Core.Timer.{TimerUpdate}
use smoker_firmware.App.Commands.{Ports, PortCall, Command, heater_write, clock_now, chamber_read}
use smoker_firmware.App.State.{
  App, ProbeRuntime, QueuedCommand, raise_alarm, resolve_probe_alarms, record_command_result,
}
use smoker_firmware.App.Session.{
  finish_timer, report_timer, update_timer_of, update_session_timer, stop_running_session,
  raise_fault, evaluate_safety, update_active_timer,
}
use smoker_firmware.App.Queue.{slot}
use smoker_firmware.App.Handlers.{
  process_start, process_stop, process_set_chamber_target, process_set_probe_target,
  process_set_probe_enabled, process_set_probe_alarm_enabled, process_acknowledge_alarm,
  process_clear_resolved_fault, process_prepare_firmware_update, process_finish_firmware_update,
  process,
}
use smoker_firmware.App.Drain.{
  record_all, run_command, run_slot, run_head, manual_stop_barrier, drain, process_pending_commands,
}
use smoker_firmware.App.Probes.{
  connect, note_connection, raise_probe_alarms, evaluate_probe_state, evaluate_one, evaluate_each,
  evaluate_probe_states, acquire_raw_inputs, sample_all, sample,
}
use smoker_firmware.App.Tick.{
  write_heater, latch_controller_failure, retry_reset, request_demand, release_ineligible,
  report_overflow, update_session_elapsed, update_inputs, control_heater, publish_all,
  publish_pending_events, refresh_snapshot_view_cache, tick,
}

-- What the heater port was given, newest first.
abbrev pub heater_writes : List PortCall → List HeaterDemand
heater_writes [] = []
heater_writes (heater_write d ∷ calls) = d ∷ heater_writes calls
heater_writes (c ∷ calls) = heater_writes calls

publish_all-writes :
    (es : List Event) (calls : List PortCall)
    → heater_writes (publish_all es calls) ≡ heater_writes calls
unfolding publish_all
publish_all-writes [] calls = refl
publish_all-writes (e ∷ es) calls = publish_all-writes es _

report_overflow-calls : (now : TimePoint) (a : App) → (report_overflow now a).calls ≡ a.calls
unfolding report_overflow
report_overflow-calls now a = ground arith

process-calls : (m : Command) (now : TimePoint) (a : App) → (process m now a).calls ≡ a.calls
unfolding process process_start process_stop process_set_chamber_target process_set_probe_target
    process_set_probe_enabled process_set_probe_alarm_enabled process_acknowledge_alarm
    process_clear_resolved_fault process_prepare_firmware_update process_finish_firmware_update
process-calls m now a = ground arith

record_command_result-calls :
    (id : ℕ) (ok : Bool) (a : App) → (record_command_result id ok a).calls ≡ a.calls
unfolding record_command_result
record_command_result-calls id ok a = ground arith

record_all-calls : (ids : List ℕ) (ok : Bool) (a : App) → (record_all ids ok a).calls ≡ a.calls
unfolding record_all
record_all-calls [] ok a = refl
record_all-calls (id ∷ ids) ok a =
    record_all-calls ids ok (record_command_result id ok a) ∙ record_command_result-calls id ok a

run_slot-calls :
    (c : Option QueuedCommand) (now : TimePoint) (a : App) → (run_slot c now a).calls ≡ a.calls
unfolding run_slot run_command
run_slot-calls none now a = refl
run_slot-calls (some c) now a =
    record_all-calls c.coalesced_correlation_ids _ _
    ∙ record_command_result-calls c.correlation_id _ _
    ∙ process-calls c.command now (record a { current_command_rejected = false })

run_head-calls : (now : TimePoint) (a : App) → (run_head now a).calls ≡ a.calls
unfolding run_head
run_head-calls now a = run_slot-calls (slot a.queue a.queue.head) now a

drain-calls : (fuel : ℕ) (now : TimePoint) (a : App) → (drain fuel now a).calls ≡ a.calls
unfolding drain
drain-calls zero now a = refl
drain-calls (suc fuel) now a =
    let one = run_head-calls now a in
    let more = drain-calls fuel now (run_head now a) ∙ one in
    elim (Bool-cases (ltb 0 a.queue.count)) [
      | inl busy ↦ elim (Bool-cases (manual_stop_barrier a)) [
        | inl stop ↦ rw (busy, stop) one
        | inr on ↦ rw (busy, on) more
      ]
      | inr done ↦ rw done refl
    ]

sample-writes :
    (ports : Ports) (p : ProbeRuntime) (calls : List PortCall)
    → heater_writes (sample ports p calls).1 ≡ heater_writes calls
unfolding sample
sample-writes ports p calls = ground arith

sample_all-writes :
    (ports : Ports) (ps : List ProbeRuntime) (calls : List PortCall)
    → heater_writes (sample_all ports ps calls).1 ≡ heater_writes calls
unfolding sample_all
sample_all-writes ports [] calls = refl
sample_all-writes ports (p ∷ ps) calls =
    sample_all-writes ports ps (sample ports p calls).1 ∙ sample-writes ports p calls

acquire_raw_inputs-writes :
    (ports : Ports) (a : App)
    → heater_writes (acquire_raw_inputs ports a).calls ≡ heater_writes a.calls
unfolding acquire_raw_inputs
acquire_raw_inputs-writes ports a =
    sample_all-writes ports a.probes (chamber_read (ports.read_chamber a.calls) ∷ a.calls)

note_connection-calls :
    (p : ProbeRuntime) (now : TimePoint) (a : App) → (note_connection p now a).calls ≡ a.calls
unfolding note_connection
note_connection-calls p now a = ground arith

raise_probe_alarms-calls :
    (p : ProbeRuntime) (now : TimePoint) (a : App) → (raise_probe_alarms p now a).1.calls ≡ a.calls
unfolding raise_probe_alarms
raise_probe_alarms-calls p now a = ground arith

evaluate_one-calls :
    (p : ProbeRuntime) (now : TimePoint) (a : App) → (evaluate_one p now a).1.calls ≡ a.calls
unfolding evaluate_one evaluate_probe_state resolve_probe_alarms
evaluate_one-calls p now a =
    let c : App =
      if has_value p.current_temperature
      then resolve_probe_alarms AlarmCode.probe_disconnected p.default_configuration.id
          (note_connection p now a)
      else note_connection p now a in
    ground (arith, note_connection-calls p now a, raise_probe_alarms-calls (connect p) now c)

evaluate_each-calls :
    (ps : List ProbeRuntime) (now : TimePoint) (a : App)
    → (evaluate_each ps now a).1.calls ≡ a.calls
unfolding evaluate_each
evaluate_each-calls [] now a = refl
evaluate_each-calls (p ∷ ps) now a = evaluate_each-calls ps now _ ∙ evaluate_one-calls p now a

evaluate_probe_states-calls :
    (now : TimePoint) (a : App) → (evaluate_probe_states now a).calls ≡ a.calls
unfolding evaluate_probe_states
evaluate_probe_states-calls now a = let e = evaluate_each-calls a.probes now a in ground arith

report_timer-calls :
    (c : StageTimer) (u : TimerUpdate) (now : TimePoint) (a : App)
    → (report_timer c u now a).calls ≡ a.calls
unfolding report_timer finish_timer stop_running_session raise_alarm
report_timer-calls c u now a = ground arith

update_timer_of-calls :
    (s : Session) (c : Option StageTimer) (now : TimePoint) (a : App)
    → (update_timer_of s c now a).calls ≡ a.calls
unfolding update_timer_of
update_timer_of-calls s none now a = refl
update_timer_of-calls s (some c) now a = report_timer-calls c _ now _

update_session_timer-calls :
    (o : Option Session) (now : TimePoint) (a : App)
    → (update_session_timer o now a).calls ≡ a.calls
unfolding update_session_timer
update_session_timer-calls none now a = refl
update_session_timer-calls (some s) now a = elim (Bool-cases (is_running s.status)) [
  | inl on ↦ rw on (update_timer_of-calls s s.recipe_snapshot.stage.timer now a)
  | inr off ↦ rw off refl
]

update_active_timer-calls :
    (now : TimePoint) (a : App) → (update_active_timer now a).calls ≡ a.calls
unfolding update_active_timer
update_active_timer-calls now a = update_session_timer-calls a.session now a

update_session_elapsed-calls :
    (now : TimePoint) (a : App) → (update_session_elapsed now a).calls ≡ a.calls
unfolding update_session_elapsed
update_session_elapsed-calls now a = refl

update_inputs-writes :
    (ports : Ports) (now : TimePoint) (a : App)
    → heater_writes (update_inputs ports now a).calls ≡ heater_writes a.calls
unfolding update_inputs process_pending_commands
update_inputs-writes ports now a =
    let b = report_overflow now a in
    let c = acquire_raw_inputs ports b in
    let d = drain c.queue.count now c in
    let e = evaluate_probe_states now d in
    ap heater_writes (
      update_session_elapsed-calls now (update_active_timer now e)
      ∙ update_active_timer-calls now e
      ∙ evaluate_probe_states-calls now d
      ∙ drain-calls c.queue.count now c)
    ∙ acquire_raw_inputs-writes ports b
    ∙ ap heater_writes (report_overflow-calls now a)

retry_reset-writes :
    (ports : Ports) (a : App) → heater_writes (retry_reset ports a).calls ≡ heater_writes a.calls
unfolding retry_reset
retry_reset-writes ports a = ground arith

request_demand-writes :
    (ports : Ports) (a : App)
    → heater_writes (request_demand ports a).1.calls ≡ heater_writes a.calls
unfolding request_demand
request_demand-writes ports a = ground arith

release_ineligible-writes :
    (ports : Ports) (a : App)
    → heater_writes (release_ineligible ports a).calls ≡ heater_writes a.calls
unfolding release_ineligible
release_ineligible-writes ports a = ground arith

evaluate_safety-calls : (now : TimePoint) (a : App) → (evaluate_safety now a).calls ≡ a.calls
unfolding evaluate_safety raise_fault
evaluate_safety-calls now a = ground arith

latch_controller_failure-calls :
    (now : TimePoint) (a : App) → (latch_controller_failure now a).calls ≡ a.calls
unfolding latch_controller_failure raise_fault
latch_controller_failure-calls now a = ground arith

control_heater-writes :
    (ports : Ports) (now : TimePoint) (a : App)
    → heater_writes (control_heater ports now a).calls
      ≡ (control_heater ports now a).heater_demand ∷ heater_writes a.calls
unfolding control_heater write_heater
control_heater-writes ports now a =
    let r = request_demand ports (retry_reset ports a) in
    let c = evaluate_safety now r.1 in
    let d = release_ineligible ports c in
    ap (◌∷◌ (control_heater ports now a).heater_demand) (
      ap heater_writes (latch_controller_failure-calls now d)
      ∙ release_ineligible-writes ports c
      ∙ ap heater_writes (evaluate_safety-calls now r.1)
      ∙ request_demand-writes ports (retry_reset ports a)
      ∙ retry_reset-writes ports a)

-- The calls of a cycle contain one write of the heater, that of the demand it ends with.
pub tick-writes :
    (ports : Ports) (a : App)
    → heater_writes (tick ports a).calls ≡ (tick ports a).heater_demand ∷ heater_writes a.calls
unfolding tick publish_pending_events refresh_snapshot_view_cache
tick-writes ports a =
    let now = ports.now a.calls in
    let b : App = record a { pending_events = []; calls = clock_now now ∷ a.calls } in
    let c = update_inputs ports now b in
    publish_all-writes (control_heater ports now c).pending_events
      (control_heater ports now c).calls
    ∙ control_heater-writes ports now c
    ∙ ap (◌∷◌ (control_heater ports now c).heater_demand) (update_inputs-writes ports now b)
