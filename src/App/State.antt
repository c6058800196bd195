-- ===== src/App/State.antt =====
-- components/smoker_app: the members of `SmokerApplication` and the functions that only read them
-- or append to its logs. The six ports are one log of calls, newest first.
use smoker_firmware.Common.{
  ℕ, ◌+◌, ◌%◌, ◌^◌, String, List, [], ◌∷◌, ◌++◌, map, Bool, true, false, not, ◌&&◌, Option, none,
  some, if◌then◌else◌, has_value, holds, opt_eq, ◌==◌, length, any_of, find_if, update_first,
}
use smoker_firmware.Core.Domain.{
  Temperature, temp_gt, temp_le, HeaterDemand, Duration, TimePoint, FoodProbeConfig, ProbeReading,
  ProbeRole, Recipe, Session, SessionStatus, is_running, Fault, FaultCode, Alarm, AlarmCode,
  alarm_code_eq, Event, EventType, SafetyLimits, TimerStartConditionType, TimerStartCondition,
  StageTimer,
}
use smoker_firmware.Core.Timer.{is_valid_timer_configuration}
use smoker_firmware.App.Commands.{Command, CommandResult, command_result_capacity, PortCall}

abbrev pub command_capacity : ℕ
command_capacity = 16

abbrev pub regular_command_capacity : ℕ
regular_command_capacity = 15

-- `size_t` and `AlarmId` have 32 bits on the target.
abbrev pub u32 : ℕ → ℕ
u32 n = n % 2 ^ 32

pub record ProbeRuntime : Type 0 where
  pub default_configuration : FoodProbeConfig
  pub session_target_temperature : Option Temperature
  pub session_enabled : Bool
  pub session_alarm_enabled : Bool
  pub current_temperature : Option Temperature
  pub reading_sampled : Bool
  pub reading_initialized : Bool
  pub connected : Bool
  pub target_alarm_emitted : Bool
  pub disconnected_alarm_emitted : Bool

-- The list is the first `coalesced_correlation_count` entries of the array.
pub record QueuedCommand : Type 0 where
  pub command : Command
  pub correlation_id : ℕ
  pub coalesced_correlation_ids : List ℕ

pub record CommandQueue : Type 0 where
  pub commands : List (Option QueuedCommand)
  pub head : ℕ
  pub tail : ℕ
  pub count : ℕ
  pub overflow_count : ℕ
  pub reported_overflow_count : ℕ

pub record ProbeSnapshot : Type 0 where
  pub id : ℕ
  pub name : String
  pub role : ProbeRole
  pub current_temperature : Option Temperature
  pub target_temperature : Option Temperature
  pub enabled : Bool
  pub alarm_enabled : Bool

pub record App : Type 0 where
  pub safety_limits : SafetyLimits
  pub session : Option Session
  pub chamber_temperature : Option Temperature
  pub heater_demand : HeaterDemand
  pub active_fault : Option Fault
  pub probes : List ProbeRuntime
  pub probe_readings : List ProbeReading
  pub alarms : List Alarm
  pub probe_snapshot_views : List ProbeSnapshot
  pub active_alarm_snapshot : List Alarm
  pub pending_events : List Event
  pub command_results : List CommandResult
  pub next_alarm_id : ℕ
  pub configuration_valid : Bool
  pub firmware_update_active : Bool
  pub controller_active : Bool
  pub controller_fault_resolved : Bool
  pub controller_failure_pending : Bool
  pub session_elapsed : Duration
  pub queue : CommandQueue
  pub current_command_rejected : Bool
  pub calls : List PortCall

abbrev pub session_running : Option Session → Bool
session_running none = false
session_running (some s) = is_running s.status

unfoldable pub current_session_status : App → SessionStatus
current_session_status a =
    if has_value a.active_fault
    then SessionStatus.fault
    else elim a.session [ none ↦ SessionStatus.idle | some s ↦ s.status ]

abbrev pub is_probe : ℕ → ProbeRuntime → Bool
is_probe id p = p.default_configuration.id == id

unfoldable pub probe_exists : List ProbeRuntime → ℕ → Bool
probe_exists probes id = any_of (is_probe id) probes

unfoldable pub find_probe : List ProbeRuntime → ℕ → Option ProbeRuntime
find_probe probes id = find_if (is_probe id) probes

fault_code_is_resolved : FaultCode → App → Bool
fault_code_is_resolved FaultCode.chamber_sensor_invalid a = has_value a.chamber_temperature
fault_code_is_resolved FaultCode.chamber_over_temperature a =
    holds a.chamber_temperature (λ t. temp_le t a.safety_limits.maximum_chamber_temperature)
fault_code_is_resolved FaultCode.control_loop_failure a = a.controller_fault_resolved
fault_code_is_resolved FaultCode.configuration_invalid a = false

unfoldable pub fault_condition_is_resolved : App → FaultCode → Bool
unfolding fault_code_is_resolved
fault_condition_is_resolved a code = fault_code_is_resolved code a

-- The last test of `recipe_is_valid`: the probe that starts the timer is configured.
abbrev pub starting_probe_exists :
    TimerStartConditionType → TimerStartCondition → List ProbeRuntime → Bool
starting_probe_exists TimerStartConditionType.probe_temperature_at_least c probes =
    holds c.probe_id (probe_exists probes)
starting_probe_exists _ c probes = true

abbrev pub timer_is_valid : Option StageTimer → List ProbeRuntime → Bool
timer_is_valid none probes = true
timer_is_valid (some timer) probes =
    is_valid_timer_configuration timer
    && starting_probe_exists timer.start_condition.type timer.start_condition probes

unfoldable pub recipe_is_valid : App → Recipe → Bool
recipe_is_valid a recipe =
    if holds recipe.stage.chamber_target
      (λ t. temp_gt t a.safety_limits.maximum_chamber_temperature)
    then false
    else timer_is_valid recipe.stage.timer a.probes

unfoldable pub controller_is_eligible : App → Bool
controller_is_eligible a =
    a.configuration_valid
    && not (has_value a.active_fault)
    && not a.controller_failure_pending
    && not a.firmware_update_active
    && session_running a.session
    && has_value a.chamber_temperature
    && holds a.session (λ s. has_value s.active_chamber_target)

unfoldable pub emit_with :
    EventType → TimePoint → Option ℕ → Option ℕ → Option FaultCode → App → App
emit_with type now probe alarm fault a = record a {
  pending_events =
      a.pending_events
      ++ (record {
        type = type;
        occurred_at = now;
        probe_id = probe;
        alarm_id = alarm;
        fault_code = fault;
      }
          ∷ []);
}

-- `emit` with its default arguments
abbrev pub emit : EventType → TimePoint → App → App
emit type now a = emit_with type now none none none a

unfoldable pub reject_command : TimePoint → App → App
unfolding emit_with
reject_command now a =
    emit EventType.command_rejected now (record a { current_command_rejected = true })

abbrev pub drop_oldest {ℓ} : {A : Type ℓ} → List A → List A
drop_oldest [] = []
drop_oldest (x ∷ xs) = xs

unfoldable pub record_command_result : ℕ → Bool → App → App
record_command_result id accepted a =
    let result : CommandResult = record { correlation_id = id; semantic_accepted = accepted } in
    if id == 0
    then a
    else if length a.command_results == command_result_capacity
    then record a { command_results = drop_oldest a.command_results ++ (result ∷ []) }
    else record a { command_results = a.command_results ++ (result ∷ []) }

abbrev pub is_alarm : AlarmCode → Option ℕ → Alarm → Bool
is_alarm code probe alarm = alarm_code_eq alarm.code code && opt_eq alarm.probe_id probe

-- `raise_alarm` writes over the alarm of the same code and probe, or appends.
unfoldable pub raise_alarm : AlarmCode → Option ℕ → TimePoint → App → App
raise_alarm code probe now a =
    let alarm : Alarm = record {
      id = a.next_alarm_id;
      code = code;
      probe_id = probe;
      occurred_at = now;
      acknowledged = false;
      resolved = false;
    } in
    record a {
      next_alarm_id = u32 (a.next_alarm_id + 1);
      alarms =
          if any_of (is_alarm code probe) a.alarms
          then update_first (is_alarm code probe) (λ _. alarm) a.alarms
          else a.alarms ++ (alarm ∷ []);
    }

abbrev pub resolve : Alarm → Alarm
resolve alarm = record alarm { resolved = true }

unfoldable pub resolve_probe_alarms : AlarmCode → ℕ → App → App
resolve_probe_alarms code probe a = record a {
  alarms = map (λ m. if is_alarm code (some probe) m then resolve m else m) a.alarms;
}

unfoldable pub resolve_all_alarms : App → App
resolve_all_alarms a = record a { alarms = map resolve a.alarms }
