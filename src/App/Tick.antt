-- ===== src/App/Tick.antt =====
-- components/smoker_app/src/smoker_application.cpp: the constructor and `tick`, the control cycle.
pub mod HeaterSafety
pub mod Stop
pub mod QueueFrame
pub mod Writes
pub mod Elapsed
use smoker_firmware.Common.{
  ℕ, ◌+◌, List, [], ◌∷◌, ◌++◌, map, Bool, true, false, not, ◌&&◌, ◌||◌, Option, none, some, arith,
  if◌then◌else◌, has_value, holds, ◌==◌, keep, replicate,
}
use smoker_firmware.Common.Int.{pos, leb_ℤ, ◌-ℤ◌}
use smoker_firmware.Core.Domain.{
  Temperature, HeaterDemand, off, Duration, TimePoint, FoodProbeConfig, ProbeReading, Session,
  SafetyLimits, Fault, FaultCode, Event, EventType,
}
use smoker_firmware.Core.Safety.{apply_safety_gate}
use smoker_firmware.App.Commands.{
  Ports, PortCall, clock_now, controller_request, controller_reset, heater_write, event_publish,
}
use smoker_firmware.App.State.{
  App, ProbeRuntime, ProbeSnapshot, CommandQueue, command_capacity, current_session_status,
  controller_is_eligible, emit, emit_with, is_probe, probe_exists,
}
use smoker_firmware.App.Session.{raise_fault, update_active_timer, evaluate_safety}
use smoker_firmware.App.Drain.{process_pending_commands}
use smoker_firmware.App.Probes.{acquire_raw_inputs, evaluate_probe_states}

abbrev pub view_probe : ProbeRuntime → ProbeSnapshot
view_probe p = record {
  id = p.default_configuration.id;
  name = p.default_configuration.name;
  role = p.default_configuration.role;
  current_temperature = p.current_temperature;
  target_temperature = p.session_target_temperature;
  enabled = p.session_enabled;
  alarm_enabled = p.session_alarm_enabled;
}

unfoldable pub refresh_snapshot_view_cache : App → App
refresh_snapshot_view_cache a = record a {
  probe_snapshot_views = map view_probe a.probes;
  active_alarm_snapshot = keep (λ m. not m.resolved) a.alarms;
}

unfoldable pub publish_all : List Event → List PortCall → List PortCall
publish_all [] calls = calls
publish_all (e ∷ es) calls = publish_all es (event_publish e ∷ calls)

unfoldable pub publish_pending_events : App → App
publish_pending_events a = record a { calls = publish_all a.pending_events a.calls }

unfoldable pub report_overflow : TimePoint → App → App
unfolding emit_with
report_overflow now a =
    if a.queue.reported_overflow_count == a.queue.overflow_count
    then a
    else emit EventType.command_queue_overflow now
        (record a { queue = record (a.queue) { reported_overflow_count = a.queue.overflow_count } })

abbrev pub elapsed_at : Session → TimePoint → Duration
elapsed_at s endpoint = if leb_ℤ s.started_at endpoint then endpoint -ℤ s.started_at else pos 0

-- `stopped_at.value_or(now)`
abbrev pub session_elapsed_of : Option Session → TimePoint → Duration
session_elapsed_of none now = pos 0
session_elapsed_of (some s) now = elapsed_at s (elim s.stopped_at [ none ↦ now | some t ↦ t ])

unfoldable pub update_session_elapsed : TimePoint → App → App
update_session_elapsed now a = record a { session_elapsed = session_elapsed_of a.session now }

abbrev pub is_control_loop_failure : Fault → Bool
is_control_loop_failure f = elim f.code [ FaultCode.control_loop_failure ↦ true | _ ↦ false ]

-- `heater_demand_ = gate(...)` and the final write.
unfoldable pub write_heater : HeaterDemand → App → App
write_heater requested a =
    let demand = apply_safety_gate requested (current_session_status a) a.active_fault in
    record a { heater_demand = demand; calls = heater_write demand ∷ a.calls }

unfoldable pub latch_controller_failure : TimePoint → App → App
unfolding raise_fault
latch_controller_failure now a =
    if not (has_value a.active_fault) && a.controller_failure_pending
    then record (raise_fault FaultCode.control_loop_failure now a) {
      controller_failure_pending = false;
    }
    else a

module _ (ports : Ports) where
  -- `controller_fault_resolved_ = reset_chamber_controller()`
  unfoldable pub reset_controller : App → App
  reset_controller a =
      let ok = ports.reset a.calls in
      record a { controller_fault_resolved = ok; calls = controller_reset ok ∷ a.calls }

  unfoldable pub retry_reset : App → App
  unfolding reset_controller
  retry_reset a =
      if (a.controller_failure_pending || holds a.active_fault is_control_loop_failure)
        && not a.controller_fault_resolved
      then reset_controller a
      else a

  -- The controller has just become ineligible.
  unfoldable pub deactivate : App → App
  unfolding reset_controller
  deactivate a =
      let b : App = reset_controller (record a { controller_active = false }) in
      if b.controller_fault_resolved then b else record b { controller_failure_pending = true }

  unfoldable pub after_request : Option HeaterDemand → App → HeaterDemand × App
  unfolding reset_controller
  after_request none a = (
    off,
    reset_controller (record a { controller_failure_pending = true; controller_active = false }),
  )
  after_request (some d) a =
      (d, record a { controller_active = true; controller_fault_resolved = false })

  unfoldable pub ask_controller : Option Temperature → Option Session → App → HeaterDemand × App
  unfolding after_request
  ask_controller (some t) (some s) a = elim s.active_chamber_target [
    | none ↦ (off, a)
    | some target ↦
        let answer = ports.request a.calls t target in
        after_request answer (record a { calls = controller_request t target answer ∷ a.calls })
  ]
  ask_controller _ _ a = (off, a)

  unfoldable pub request_demand : App → HeaterDemand × App
  unfolding ask_controller deactivate
  request_demand a =
      if controller_is_eligible a
      then ask_controller a.chamber_temperature a.session a
      else if a.controller_active
      then (off, deactivate a)
      else (off, a)

  unfoldable pub release_ineligible : App → App
  unfolding deactivate
  release_ineligible a =
      if a.controller_active && not (controller_is_eligible a) then deactivate a else a

  -- From the controller's request to the final write.
  unfoldable pub control_heater : TimePoint → App → App
  control_heater now a =
      let (requested, b) = request_demand (retry_reset a) in
      write_heater requested
        (latch_controller_failure now (release_ineligible (evaluate_safety now b)))

  -- The cycle up to the request.
  unfoldable pub update_inputs : TimePoint → App → App
  update_inputs now a = update_session_elapsed now (
      update_active_timer now (
        evaluate_probe_states now
          (process_pending_commands now (acquire_raw_inputs ports (report_overflow now a)))))

  unfoldable pub tick : App → App
  tick a =
      let now = ports.now a.calls in
      let b : App = record a { pending_events = []; calls = clock_now now ∷ a.calls } in
      refresh_snapshot_view_cache
        (publish_pending_events (control_heater now (update_inputs now b)))
