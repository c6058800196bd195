-- ===== src/Core/Domain.antt =====
-- components/smoker_core: domain.hpp, temperature.hpp/.cpp and heater_demand.hpp/.cpp.
-- Durations and monotonic time points are counts of milliseconds. The source's counts are 64-bit
-- and are counted from boot; the model's are integers without a bound.
use smoker_firmware.Common.{
  ℕ, String, Bool, true, false, not, ◌||◌, Option, none, some, if◌then◌else◌,
}
use smoker_firmware.Common.Int.{ℤ, pos}
use smoker_firmware.Common.Float32
use smoker_firmware.Common.Float32.{Float32, zero_float, hundred}

-- `Temperature`; `from_celsius` is its only constructor outside the class.
pub record Temperature : Type 0 where
  pub celsius : Float32

unfoldable pub from_celsius : Float32 → Option Temperature
from_celsius x = if not (Float32.is_finite x) then none else some (record { celsius = x })

-- `a > b`, `a >= b` and `a <= b` of the defaulted comparison, which is that of the floats.
unfoldable pub temp_gt : Temperature → Temperature → Bool
temp_gt a b = Float32.lt b.celsius a.celsius

unfoldable pub temp_ge : Temperature → Temperature → Bool
temp_ge a b = Float32.le b.celsius a.celsius

unfoldable pub temp_le : Temperature → Temperature → Bool
temp_le a b = Float32.le a.celsius b.celsius

pub record HeaterDemand : Type 0 where
  pub percent : Float32

abbrev pub off : HeaterDemand
off = record { percent = zero_float }

unfoldable pub from_percent : Float32 → Option HeaterDemand
from_percent x =
    if not (Float32.is_finite x) || Float32.lt x zero_float || Float32.lt hundred x
    then none
    else some (record { percent = x })

abbrev pub Duration : Type 0
Duration = ℤ

abbrev pub TimePoint : Type 0
TimePoint = ℤ

pub data ProbeRole : Type 0 where
  meat ambient_monitor unassigned : ProbeRole

pub record FoodProbeConfig : Type 0 where
  pub id : ℕ
  pub name : String
  pub role : ProbeRole
  pub target_temperature : Option Temperature
  pub enabled : Bool
  pub alarm_enabled : Bool

pub record ProbeReading : Type 0 where
  pub id : ℕ
  pub temperature : Option Temperature

pub data TimerStartConditionType : Type 0 where
  immediate chamber_temperature_at_least probe_temperature_at_least : TimerStartConditionType

pub record TimerStartCondition : Type 0 where
  pub type : TimerStartConditionType
  pub temperature : Option Temperature
  pub probe_id : Option ℕ

pub data TimerCompletionAction : Type 0 where
  notify stop_session : TimerCompletionAction

pub record StageTimer : Type 0 where
  pub duration : Duration
  pub start_condition : TimerStartCondition
  pub completion_action : TimerCompletionAction

pub record TimerRuntimeState : Type 0 where
  pub started : Bool
  pub completed : Bool
  pub started_at : Option TimePoint
  pub elapsed : Duration

-- `TimerRuntimeState{}`
abbrev pub new_timer : TimerRuntimeState
new_timer = record { started = false; completed = false; started_at = none; elapsed = pos 0 }

pub record Stage : Type 0 where
  pub id : ℕ
  pub name : String
  pub chamber_target : Option Temperature
  pub timer : Option StageTimer

pub record Recipe : Type 0 where
  pub id : ℕ
  pub name : String
  pub stage : Stage

pub data SessionStatus : Type 0 where
  idle running stopped fault : SessionStatus

abbrev pub is_running : SessionStatus → Bool
is_running SessionStatus.running = true
is_running _ = false

abbrev pub is_fault : SessionStatus → Bool
is_fault SessionStatus.fault = true
is_fault _ = false

-- `none` of the source is `not_stopped` here.
pub data StopReason : Type 0 where
  not_stopped user timer_completed fault recovery_not_allowed : StopReason

pub record Session : Type 0 where
  pub id : ℕ
  pub status : SessionStatus
  pub recipe_snapshot : Recipe
  pub started_at : TimePoint
  pub stopped_at : Option TimePoint
  pub active_chamber_target : Option Temperature
  pub timer : TimerRuntimeState
  pub stop_reason : StopReason

pub data FaultCode : Type 0 where
  chamber_sensor_invalid chamber_over_temperature control_loop_failure configuration_invalid :
      FaultCode

pub record Fault : Type 0 where
  pub code : FaultCode
  pub occurred_at : TimePoint
  pub latched : Bool

pub data AlarmCode : Type 0 where
  probe_target_reached probe_disconnected timer_completed : AlarmCode

abbrev pub alarm_code_eq : AlarmCode → AlarmCode → Bool
alarm_code_eq AlarmCode.probe_target_reached AlarmCode.probe_target_reached = true
alarm_code_eq AlarmCode.probe_disconnected AlarmCode.probe_disconnected = true
alarm_code_eq AlarmCode.timer_completed AlarmCode.timer_completed = true
alarm_code_eq _ _ = false

pub record Alarm : Type 0 where
  pub id : ℕ
  pub code : AlarmCode
  pub probe_id : Option ℕ
  pub occurred_at : TimePoint
  pub acknowledged : Bool
  pub resolved : Bool

pub data EventType : Type 0 where
  device_booted session_started session_stopped chamber_target_changed : EventType
  probe_target_changed probe_connected probe_reconnected probe_disconnected : EventType
  probe_target_reached timer_started timer_completed fault_raised fault_acknowledged : EventType
  alarm_acknowledged command_queue_overflow command_rejected : EventType

pub record Event : Type 0 where
  pub type : EventType
  pub occurred_at : TimePoint
  pub probe_id : Option ℕ
  pub alarm_id : Option ℕ
  pub fault_code : Option FaultCode

pub record SafetyLimits : Type 0 where
  pub maximum_chamber_temperature : Temperature
