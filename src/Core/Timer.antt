-- ===== src/Core/Timer.antt =====
-- components/smoker_core/src/timer.cpp: the stage timer.
pub mod Laws
use smoker_firmware.Common.{
  ℕ, List, [], ◌∷◌, Bool, true, false, not, ◌||◌, ◌&&◌, Option, none, some, arith, if◌then◌else◌,
  has_value, holds, ◌==◌,
}
use smoker_firmware.Common.Int.{ℤ, pos, ltb_ℤ, leb_ℤ, min_ℤ, ◌-ℤ◌}
use smoker_firmware.Core.Domain.{
  Temperature, temp_ge, ProbeReading, TimerStartCondition, TimerStartConditionType, StageTimer,
  TimerRuntimeState, TimePoint, Duration,
}

pub record TimerUpdate : Type 0 where
  pub started_now : Bool
  pub completed_now : Bool

-- The loop over the readings.
probe_reached : List ProbeReading → ℕ → Temperature → Bool
probe_reached [] probe threshold = false
probe_reached (r ∷ rs) probe threshold =
    (r.id == probe && holds r.temperature (λ t. temp_ge t threshold))
    || probe_reached rs probe threshold

threshold_by :
    TimerStartConditionType → TimerStartCondition → Option Temperature → List ProbeReading → Bool
threshold_by TimerStartConditionType.immediate c chamber readings = true
threshold_by TimerStartConditionType.chamber_temperature_at_least c chamber readings =
    holds chamber (λ t. holds c.temperature (λ threshold. temp_ge t threshold))
threshold_by TimerStartConditionType.probe_temperature_at_least c chamber readings =
    holds c.temperature
      (λ threshold. holds c.probe_id (λ probe. probe_reached readings probe threshold))

unfoldable pub threshold_reached :
    TimerStartCondition → Option Temperature → List ProbeReading → Bool
unfolding threshold_by probe_reached
threshold_reached c chamber readings = threshold_by c.type c chamber readings

unfoldable pub condition_is_valid : TimerStartConditionType → TimerStartCondition → Bool
condition_is_valid TimerStartConditionType.immediate c =
    not (has_value c.temperature) && not (has_value c.probe_id)
condition_is_valid TimerStartConditionType.chamber_temperature_at_least c =
    has_value c.temperature && not (has_value c.probe_id)
condition_is_valid TimerStartConditionType.probe_temperature_at_least c =
    has_value c.temperature && has_value c.probe_id

unfoldable pub is_valid_timer_configuration : StageTimer → Bool
unfolding condition_is_valid
is_valid_timer_configuration timer =
    if leb_ℤ timer.duration (pos 0)
    then false
    else condition_is_valid timer.start_condition.type timer.start_condition

-- The part of the update after the start: `elapsed` and completion.
advance_from :
    Option TimePoint
    → StageTimer
    → TimerRuntimeState
    → TimePoint
    → Bool
    → TimerRuntimeState × TimerUpdate
advance_from none config state now started_now =
    (state, record { started_now = started_now; completed_now = false })
advance_from (some at) config state now started_now =
    if ltb_ℤ now at
    then (state, record { started_now = started_now; completed_now = false })
    else (let elapsed = min_ℤ (now -ℤ at) config.duration in
        let done = leb_ℤ config.duration elapsed in
        (
          record state { elapsed = elapsed; completed = if done then true else state.completed },
          record { started_now = started_now; completed_now = done },
        ))

advance : StageTimer → TimerRuntimeState → TimePoint → Bool → TimerRuntimeState × TimerUpdate
unfolding advance_from
advance config state now started_now = advance_from state.started_at config state now started_now

unfoldable pub update_stage_timer :
    StageTimer
    → TimerRuntimeState
    → TimePoint
    → Option Temperature
    → List ProbeReading
    → TimerRuntimeState × TimerUpdate
unfolding advance
update_stage_timer config state now chamber readings =
    if state.completed || not (is_valid_timer_configuration config)
    then (state, record { started_now = false; completed_now = false })
    else if state.started
    then advance config state now false
    else if not (threshold_reached config.start_condition chamber readings)
    then (state, record { started_now = false; completed_now = false })
    else advance config (record state { started = true; started_at = some now; elapsed = pos 0 })
        now true

freeze_from : Option TimePoint → TimerRuntimeState → TimePoint → TimerRuntimeState
freeze_from none state now = state
freeze_from (some at) state now =
    if ltb_ℤ now at then state else record state { elapsed = now -ℤ at }

unfoldable pub freeze_stage_timer : TimerRuntimeState → TimePoint → TimerRuntimeState
unfolding freeze_from
freeze_stage_timer state now =
    if not state.started || state.completed then state else freeze_from state.started_at state now
