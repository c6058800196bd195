-- ===== src/App/Invariant/Tick.antt =====
-- components/smoker_app/src/smoker_application.cpp: `tick` keeps the invariant of the session.
use smoker_firmware.Common.{arith, refl, sym, subst}
use smoker_firmware.Core.Domain.{TimePoint}
use smoker_firmware.App.Commands.{Ports}
use smoker_firmware.App.State.{App}
use smoker_firmware.App.Session.{evaluate_safety}
use smoker_firmware.App.Drain.{process_pending_commands}
use smoker_firmware.App.Probes.{acquire_raw_inputs, evaluate_probe_states}
use smoker_firmware.App.Tick.{
  report_overflow, update_session_elapsed, write_heater, retry_reset, request_demand,
  release_ineligible, control_heater, update_inputs, publish_pending_events,
  refresh_snapshot_view_cache, tick,
}
use smoker_firmware.App.Invariant.{Coherent, IsCoherent, IsSame, IsSame-Coherent}
use smoker_firmware.App.Invariant.Synced.{
  IsSynced, Settled, update_active_timer-IsSynced, evaluate_safety-Settled,
  latch_controller_failure-Coherent,
}
use smoker_firmware.App.Invariant.Cycle.{
  drain-Coherent, evaluate_probe_states-IsSame, update_active_timer-Coherent,
}

report_overflow-IsSame : (now : TimePoint) (a : App) → IsSame a (report_overflow now a)
unfolding report_overflow
report_overflow-IsSame now a = ground arith

acquire_raw_inputs-IsSame : (ports : Ports) (a : App) → IsSame a (acquire_raw_inputs ports a)
unfolding acquire_raw_inputs
acquire_raw_inputs-IsSame ports a = record {
  limits = refl;
  session = refl;
  active = refl;
  update = refl;
}

retry_reset-IsSame : (ports : Ports) (a : App) → IsSame a (retry_reset ports a)
unfolding retry_reset
retry_reset-IsSame ports a = ground arith

request_demand-IsSame : (ports : Ports) (a : App) → IsSame a (request_demand ports a).1
unfolding request_demand
request_demand-IsSame ports a = ground arith

release_ineligible-IsSame : (ports : Ports) (a : App) → IsSame a (release_ineligible ports a)
unfolding release_ineligible
release_ineligible-IsSame ports a = ground arith

IsSame-Settled : (now : TimePoint) {a b : App} → IsSame a b → Settled now a → Settled now b
IsSame-Settled now s v = (IsSame-Coherent s v.0, subst (IsSynced now) (sym s.session) v.1)

update_inputs-Settled :
    (ports : Ports) (now : TimePoint) (a : App)
    → Coherent a
    → Settled now (update_inputs ports now a)
unfolding update_inputs update_session_elapsed process_pending_commands
update_inputs-Settled ports now a v =
    let b = acquire_raw_inputs ports (report_overflow now a) in
    let read : Coherent b =
      IsSame-Coherent (acquire_raw_inputs-IsSame ports _)
        (IsSame-Coherent (report_overflow-IsSame now a) v) in
    let c = process_pending_commands now b in
    let evaluated : Coherent (evaluate_probe_states now c) =
      IsSame-Coherent (evaluate_probe_states-IsSame now c)
        (drain-Coherent b.queue.count now b read) in
    (update_active_timer-Coherent now _ evaluated, update_active_timer-IsSynced now _ evaluated)

control_heater-Coherent :
    (ports : Ports) (now : TimePoint) (a : App)
    → Settled now a
    → Coherent (control_heater ports now a)
unfolding control_heater write_heater
control_heater-Coherent ports now a v =
    let r = request_demand ports (retry_reset ports a) in
    latch_controller_failure-Coherent now _ (
      IsSame-Settled now (release_ineligible-IsSame ports (evaluate_safety now r.1)) (
        evaluate_safety-Settled now r.1 (
          IsSame-Settled now (request_demand-IsSame ports (retry_reset ports a))
            (IsSame-Settled now (retry_reset-IsSame ports a) v))))

-- A control cycle keeps the invariant: whatever the ports answer and the queue holds, afterwards no
-- session runs under a fault or during a firmware update, a session in the fault state has its
-- fault still active, the target does not exceed the limit, and the timer of the session is
-- consistent with its configuration.
pub tick-IsCoherent :
    (ports : Ports) (a : App)
    → IsCoherent a.safety_limits a.session a.active_fault a.firmware_update_active
    → let b = tick ports a in
      IsCoherent b.safety_limits b.session b.active_fault b.firmware_update_active
unfolding tick publish_pending_events refresh_snapshot_view_cache
tick-IsCoherent ports a v =
    let now = ports.now a.calls in
    control_heater-Coherent ports now _ (update_inputs-Settled ports now _ v)
