-- ===== src/App/Snapshot.antt =====
-- components/smoker_app: snapshot_view.hpp, and `snapshot_view` and `snapshot` of
-- src/smoker_application.cpp.
use smoker_firmware.Common.{
  ℕ, arith, List, map, Bool, false, not, Option, none, some, has_value, keep, ◌≡◌, if◌then◌else◌,
  true,
}
use smoker_firmware.Common.Int.{pos}
use smoker_firmware.Core.Domain.{
  Temperature, HeaterDemand, Duration, Recipe, Session, SessionStatus, StopReason,
  TimerRuntimeState, new_timer, Alarm, Fault,
}
use smoker_firmware.App.Commands.{Ports, CommandResult}
use smoker_firmware.App.State.{App, ProbeRuntime, ProbeSnapshot, current_session_status}
use smoker_firmware.App.Tick.Elapsed.{IsTimed, tick-IsTimed}
use smoker_firmware.App.Tick.{refresh_snapshot_view_cache, tick}

-- `SmokerSnapshotView`; a span is the list of its elements.
pub record SnapshotView : Type 0 where
  pub session_status : SessionStatus
  pub session_id : Option ℕ
  pub session_elapsed : Duration
  pub stop_reason : StopReason
  pub chamber_temperature : Option Temperature
  pub chamber_target : Option Temperature
  pub heater_demand : HeaterDemand
  pub timer_configured : Bool
  pub timer : TimerRuntimeState
  pub probes : List ProbeSnapshot
  pub active_alarms : List Alarm
  pub active_fault : Option Fault
  pub firmware_update_active : Bool
  pub maximum_chamber_temperature : Option Temperature
  pub command_queue_overflow_count : ℕ
  pub command_results : List CommandResult

with_session : Option Session → SnapshotView → SnapshotView
with_session none v = v
with_session (some s) v = record v {
  session_id = some s.id;
  stop_reason = s.stop_reason;
  chamber_target = s.active_chamber_target;
  timer_configured = has_value s.recipe_snapshot.stage.timer;
  timer = s.timer;
}

unfoldable pub snapshot_view : App → SnapshotView
unfolding with_session
snapshot_view a = with_session a.session (record {
  session_status = current_session_status a;
  session_id = none;
  session_elapsed = a.session_elapsed;
  stop_reason = StopReason.not_stopped;
  chamber_temperature = a.chamber_temperature;
  chamber_target = none;
  heater_demand = a.heater_demand;
  timer_configured = false;
  timer = new_timer;
  probes = a.probe_snapshot_views;
  active_alarms = a.active_alarm_snapshot;
  active_fault = a.active_fault;
  firmware_update_active = a.firmware_update_active;
  maximum_chamber_temperature = some a.safety_limits.maximum_chamber_temperature;
  command_queue_overflow_count = a.queue.overflow_count;
  command_results = a.command_results;
})

-- `SmokerSnapshot`, the copy for callers that own it.
pub record Snapshot : Type 0 where
  pub session_status : SessionStatus
  pub session_id : Option ℕ
  pub session_elapsed : Duration
  pub recipe_snapshot : Option Recipe
  pub stop_reason : StopReason
  pub chamber_temperature : Option Temperature
  pub chamber_target : Option Temperature
  pub heater_demand : HeaterDemand
  pub timer_configured : Bool
  pub timer : TimerRuntimeState
  pub probes : List ProbeSnapshot
  pub active_alarms : List Alarm
  pub active_fault : Option Fault
  pub firmware_update_active : Bool
  pub command_queue_overflow_count : ℕ
  pub command_results : List CommandResult

fill_session : Option Session → Duration → Snapshot → Snapshot
fill_session none elapsed v = v
fill_session (some s) elapsed v = record v {
  session_id = some s.id;
  session_elapsed = elapsed;
  recipe_snapshot = some s.recipe_snapshot;
  stop_reason = s.stop_reason;
  chamber_target = s.active_chamber_target;
  timer_configured = has_value s.recipe_snapshot.stage.timer;
  timer = s.timer;
}

-- A probe as `snapshot` copies it, by its own list of fields.
abbrev pub copied_probe : ProbeRuntime → ProbeSnapshot
copied_probe p = record {
  id = p.default_configuration.id;
  name = p.default_configuration.name;
  role = p.default_configuration.role;
  current_temperature = p.current_temperature;
  target_temperature = p.session_target_temperature;
  enabled = p.session_enabled;
  alarm_enabled = p.session_alarm_enabled;
}

unfoldable pub snapshot : App → Snapshot
unfolding fill_session
snapshot a = fill_session a.session a.session_elapsed (record {
  session_status = current_session_status a;
  session_id = none;
  session_elapsed = pos 0;
  recipe_snapshot = none;
  stop_reason = StopReason.not_stopped;
  chamber_temperature = a.chamber_temperature;
  chamber_target = none;
  heater_demand = a.heater_demand;
  timer_configured = false;
  timer = new_timer;
  probes = map copied_probe a.probes;
  active_alarms = keep (λ m. not m.resolved) a.alarms;
  active_fault = a.active_fault;
  firmware_update_active = a.firmware_update_active;
  command_queue_overflow_count = a.queue.overflow_count;
  command_results = a.command_results;
})

-- What the two snapshots have in common.
pub record Agrees (v : SnapshotView) (s : Snapshot) : Type 0 where
  pub session_status : v.session_status ≡ s.session_status
  pub session_id : v.session_id ≡ s.session_id
  pub session_elapsed : v.session_elapsed ≡ s.session_elapsed
  pub stop_reason : v.stop_reason ≡ s.stop_reason
  pub chamber_temperature : v.chamber_temperature ≡ s.chamber_temperature
  pub chamber_target : v.chamber_target ≡ s.chamber_target
  pub heater_demand : v.heater_demand ≡ s.heater_demand
  pub timer_configured : v.timer_configured ≡ s.timer_configured
  pub timer : v.timer ≡ s.timer
  pub probes : v.probes ≡ s.probes
  pub active_alarms : v.active_alarms ≡ s.active_alarms
  pub active_fault : v.active_fault ≡ s.active_fault
  pub firmware_update_active : v.firmware_update_active ≡ s.firmware_update_active
  pub command_queue_overflow_count : v.command_queue_overflow_count ≡ s.command_queue_overflow_count
  pub command_results : v.command_results ≡ s.command_results

refreshed-Agrees :
    (a : App)
    → IsTimed (refresh_snapshot_view_cache a)
    → Agrees
        (snapshot_view (refresh_snapshot_view_cache a))
        (snapshot (refresh_snapshot_view_cache a))
unfolding snapshot_view snapshot refresh_snapshot_view_cache
refreshed-Agrees a t = ground arith

-- After a cycle the cached view is not stale: in every field that the two have in common it shows what
-- a fresh copy of the state shows, the session's elapsed time, probes and open alarms included.
pub tick-Agrees :
    (ports : Ports) (a : App) → Agrees (snapshot_view (tick ports a)) (snapshot (tick ports a))
unfolding tick
tick-Agrees ports a = refreshed-Agrees _ (tick-IsTimed ports a)

with_session-kept :
    (s : Option Session) (v : SnapshotView)
    → ((with_session s v).firmware_update_active ≡ v.firmware_update_active)
      × ((with_session s v).command_results ≡ v.command_results)
unfolding with_session
with_session-kept none v = ((λ i. v.firmware_update_active), (λ i. v.command_results))
with_session-kept (some s) v = ((λ i. v.firmware_update_active), (λ i. v.command_results))

-- The update lock and the results are those of the application.
pub snapshot_view-kept :
    (a : App)
    → ((snapshot_view a).firmware_update_active ≡ a.firmware_update_active)
      × ((snapshot_view a).command_results ≡ a.command_results)
unfolding snapshot_view
snapshot_view-kept a = with_session-kept a.session _

running_in :
    (failed : Bool) (s : Option Session) (v : SnapshotView)
    → v.session_status ≡ (
        if failed
        then SessionStatus.fault
        else elim s [ none ↦ SessionStatus.idle | some x ↦ x.status ])
    → (with_session s v).session_status ≡ SessionStatus.running
    → has_value (with_session s v).session_id ≡ true
unfolding with_session
running_in true none v e h = absurd (cc (e, h))
running_in false none v e h = absurd (cc (e, h))
running_in failed (some s) v e h = λ i. true

-- A running session has its id in the view.
pub snapshot_view-running :
    (a : App)
    → (snapshot_view a).session_status ≡ SessionStatus.running
    → has_value (snapshot_view a).session_id ≡ true
unfolding snapshot_view current_session_status
snapshot_view-running a h =
    running_in (has_value a.active_fault) a.session _ (λ i. current_session_status a) h
