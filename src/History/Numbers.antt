-- ===== src/History/Numbers.antt =====
-- components/smoker_platform/src/history_support.cpp: enumerators, flags and optional values as numbers.
use smoker_firmware.Common.{ℕ, ◌/◌, ◌%◌, Bool, true, false, Option, none, some, if◌then◌else◌, ◌==◌}
use smoker_firmware.Common.Float32.{Float32, zero_float}
use smoker_firmware.Core.Domain.{
  Temperature, from_celsius, ProbeRole, SessionStatus, StopReason, FaultCode, AlarmCode,
}

-- The numbers of the enumerators, and the casts back from a number in range.
abbrev pub status_number : SessionStatus → ℕ
status_number SessionStatus.idle = 0
status_number SessionStatus.running = 1
status_number SessionStatus.stopped = 2
status_number SessionStatus.fault = 3

abbrev pub status_of : ℕ → SessionStatus
status_of n =
    if n == 0
    then SessionStatus.idle
    else if n == 1
    then SessionStatus.running
    else if n == 2
    then SessionStatus.stopped
    else SessionStatus.fault

abbrev pub reason_number : StopReason → ℕ
reason_number StopReason.not_stopped = 0
reason_number StopReason.user = 1
reason_number StopReason.timer_completed = 2
reason_number StopReason.fault = 3
reason_number StopReason.recovery_not_allowed = 4

abbrev pub reason_of : ℕ → StopReason
reason_of n =
    if n == 0
    then StopReason.not_stopped
    else if n == 1
    then StopReason.user
    else if n == 2
    then StopReason.timer_completed
    else if n == 3
    then StopReason.fault
    else StopReason.recovery_not_allowed

abbrev pub fault_number : FaultCode → ℕ
fault_number FaultCode.chamber_sensor_invalid = 0
fault_number FaultCode.chamber_over_temperature = 1
fault_number FaultCode.control_loop_failure = 2
fault_number FaultCode.configuration_invalid = 3

abbrev pub fault_of : ℕ → FaultCode
fault_of n =
    if n == 0
    then FaultCode.chamber_sensor_invalid
    else if n == 1
    then FaultCode.chamber_over_temperature
    else if n == 2
    then FaultCode.control_loop_failure
    else FaultCode.configuration_invalid

abbrev pub role_number : ProbeRole → ℕ
role_number ProbeRole.meat = 0
role_number ProbeRole.ambient_monitor = 1
role_number ProbeRole.unassigned = 2

abbrev pub role_of : ℕ → ProbeRole
role_of n =
    if n == 0
    then ProbeRole.meat
    else if n == 1
    then ProbeRole.ambient_monitor
    else ProbeRole.unassigned

abbrev pub alarm_number : AlarmCode → ℕ
alarm_number AlarmCode.probe_target_reached = 0
alarm_number AlarmCode.probe_disconnected = 1
alarm_number AlarmCode.timer_completed = 2

abbrev pub alarm_of : ℕ → AlarmCode
alarm_of n =
    if n == 0
    then AlarmCode.probe_target_reached
    else if n == 1
    then AlarmCode.probe_disconnected
    else AlarmCode.timer_completed

-- `flags |= mask` and `(flags & mask) != 0`, for masks of one bit that are set once each.
abbrev pub flag : Bool → ℕ → ℕ
flag b mask = if b then mask else 0

abbrev pub has_flag : ℕ → ℕ → Bool
has_flag mask flags = flags / mask % 2 == 1

-- `o ? o->celsius() : 0.0F`
abbrev pub celsius_or_zero : Option Temperature → Float32
celsius_or_zero none = zero_float
celsius_or_zero (some t) = t.celsius

abbrev pub value_or {ℓ} : {A : Type ℓ} → A → Option A → A
value_or a none = a
value_or a (some b) = b

-- A temperature that is there by its flag; `none` where the number is not one.
abbrev pub temperature_if : Bool → Float32 → Option (Option Temperature)
unfolding from_celsius
temperature_if true x = elim (from_celsius x) [ none ↦ none | some t ↦ some (some t) ]
temperature_if false x = some none
