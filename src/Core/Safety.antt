-- ===== src/Core/Safety.antt =====
-- components/smoker_core/src/safety.cpp: the chamber limits and the final gate.
use smoker_firmware.Common.{
  ◌≡◌, ◌≢◌, ◌↔◌, refl, false, not, ◌||◌, Option, none, some, arith, if◌then◌else◌, has_value,
}
use smoker_firmware.Core.Domain.{
  Temperature, temp_gt, HeaterDemand, off, SafetyLimits, FaultCode, Fault, SessionStatus,
  is_running,
}

-- The field of `SafetyEvaluation`; `heating_allowed` is its absence.
unfoldable pub evaluate_chamber_safety : Option Temperature → SafetyLimits → Option FaultCode
evaluate_chamber_safety none limits = some FaultCode.chamber_sensor_invalid
evaluate_chamber_safety (some t) limits =
    if temp_gt t limits.maximum_chamber_temperature
    then some FaultCode.chamber_over_temperature
    else none

unfoldable pub apply_safety_gate : HeaterDemand → SessionStatus → Option Fault → HeaterDemand
apply_safety_gate requested status active_fault =
    if not (is_running status) || has_value active_fault then off else requested

-- Heating is allowed exactly when there is a reading that does not exceed the limit.
pub evaluate_chamber_safety-none :
    (t : Option Temperature) (limits : SafetyLimits)
    → (evaluate_chamber_safety t limits ≡ none)
      ↔ ((u : Temperature) × (t ≡ some u) × (temp_gt u limits.maximum_chamber_temperature ≡ false))
unfolding evaluate_chamber_safety
evaluate_chamber_safety-none none limits = (λ e. cc, λ h. cc h.1)
evaluate_chamber_safety-none (some t) limits =
    (λ e. (t, refl, ground arith), λ h. ground (arith, h.1, h.2))

-- The gate passes a request other than OFF only for a running session without a fault.
apply_safety_gate_open :
    (d : HeaterDemand) (status : SessionStatus) (active_fault : Option Fault)
    → apply_safety_gate d status active_fault ≢ off
    → (status ≡ SessionStatus.running)
      × (active_fault ≡ none)
      × (apply_safety_gate d status active_fault ≡ d)
unfolding apply_safety_gate
apply_safety_gate_open d status active_fault h = ground arith
