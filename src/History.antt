-- ===== src/History.antt =====
-- components/smoker_platform: history_support.hpp, the observations of a session.
pub mod Bytes
pub mod Numbers
pub mod Codec
pub mod Policy
pub mod Compare
pub mod Mailbox
pub mod Page
pub mod Eviction
use smoker_firmware.Common.{ℕ, List, Bool, Option}
use smoker_firmware.Common.Int.{ℤ}
use smoker_firmware.Core.Domain.{
  Temperature, HeaterDemand, Duration, ProbeRole, SessionStatus, StopReason, FaultCode, AlarmCode,
  TimerRuntimeState,
}

pub data ObservationKind : Type 0 where
  start sample change end : ObservationKind

pub data StorageState : Type 0 where
  ready degraded failed : StorageState

pub record HistoryProbe : Type 0 where
  pub id : ℕ
  pub role : ProbeRole
  pub current_temperature : Option Temperature
  pub target_temperature : Option Temperature
  pub enabled : Bool
  pub alarm_enabled : Bool

pub record HistoryAlarm : Type 0 where
  pub id : ℕ
  pub code : AlarmCode
  pub probe_id : Option ℕ
  pub acknowledged : Bool

pub record Observation : Type 0 where
  pub kind : ObservationKind
  pub history_id : ℕ
  pub sequence : ℕ
  pub application_session_id : ℕ
  pub session_status : SessionStatus
  pub stop_reason : StopReason
  pub session_elapsed : Duration
  pub unix_utc_seconds : Option ℤ
  pub chamber_temperature : Option Temperature
  pub chamber_target : Option Temperature
  pub heater_demand : HeaterDemand
  pub timer : TimerRuntimeState
  pub probes : List HistoryProbe
  pub alarms : List HistoryAlarm
  pub fault : Option FaultCode
