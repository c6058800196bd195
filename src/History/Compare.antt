-- ===== src/History/Compare.antt =====
-- components/smoker_platform/src/history_support.cpp: the parts of a snapshot in an observation, and the
-- comparisons with the last snapshot.
use smoker_firmware.Common.{
  List, [], ◌∷◌, Bool, true, false, not, ◌&&◌, Option, none, some, ◌==◌, opt_eq,
}
use smoker_firmware.Common.Float32
use smoker_firmware.Core.Domain.{Temperature, SessionStatus, Fault, FaultCode, Alarm}
use smoker_firmware.App.State.{ProbeSnapshot}
use smoker_firmware.History.{HistoryProbe, HistoryAlarm}
use smoker_firmware.History.Numbers.{status_number, fault_number, role_number, alarm_number}

abbrev pub probe_of : ProbeSnapshot → HistoryProbe
probe_of p = record {
  id = p.id;
  role = p.role;
  current_temperature = p.current_temperature;
  target_temperature = p.target_temperature;
  enabled = p.enabled;
  alarm_enabled = p.alarm_enabled;
}

abbrev pub history_alarm_of : Alarm → HistoryAlarm
history_alarm_of a = record {
  id = a.id;
  code = a.code;
  probe_id = a.probe_id;
  acknowledged = a.acknowledged;
}

abbrev pub fault_code_of : Option Fault → Option FaultCode
fault_code_of none = none
fault_code_of (some f) = some f.code

-- The tests `==` of the source.
abbrev pub bool_eq : Bool → Bool → Bool
bool_eq true b = b
bool_eq false b = not b

abbrev pub status_eq : SessionStatus → SessionStatus → Bool
status_eq a b = status_number a == status_number b

unfoldable pub temperature_eq : Option Temperature → Option Temperature → Bool
unfolding Float32.le
temperature_eq none none = true
temperature_eq (some a) (some b) = Float32.le a.celsius b.celsius && Float32.le b.celsius a.celsius
temperature_eq _ _ = false

abbrev pub fault_eq : Option FaultCode → Option FaultCode → Bool
fault_eq none none = true
fault_eq (some a) (some b) = fault_number a == fault_number b
fault_eq _ _ = false

unfoldable pub probes_equal : List ProbeSnapshot → List HistoryProbe → Bool
unfolding temperature_eq
probes_equal [] [] = true
probes_equal (a ∷ as_) (b ∷ bs) =
    a.id == b.id
    && (role_number a.role == role_number b.role
        && (temperature_eq a.target_temperature b.target_temperature
            && (bool_eq a.enabled b.enabled
                && (bool_eq a.alarm_enabled b.alarm_enabled && probes_equal as_ bs))))
probes_equal _ _ = false

abbrev pub alarms_equal : List Alarm → List HistoryAlarm → Bool
alarms_equal [] [] = true
alarms_equal (a ∷ as_) (b ∷ bs) =
    a.id == b.id
    && (alarm_number a.code == alarm_number b.code
        && (opt_eq a.probe_id b.probe_id
            && (bool_eq a.acknowledged b.acknowledged && alarms_equal as_ bs)))
alarms_equal _ _ = false
