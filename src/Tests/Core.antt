-- ===== src/Tests/Core.antt =====
-- components/smoker_core: the theorems at concrete inputs.
use smoker_firmware.Common.{◌≡◌, ◌↔◌, refl, true, false, [], none, some, arith}
use smoker_firmware.Common.Int.{min_ℤ, pos, ◌+ℤ◌, ◌-ℤ◌, ◌≤ℤ◌}
use smoker_firmware.Core.Domain.{Temperature, temp_gt, TimerRuntimeState, new_timer}
use smoker_firmware.Core.Safety.{evaluate_chamber_safety, evaluate_chamber_safety-none}
use smoker_firmware.Core.Timer.{
  is_valid_timer_configuration, update_stage_timer, freeze_stage_timer,
}
use smoker_firmware.Core.Timer.Laws.{
  IsExact, new_timer-IsConsistent, update_stage_timer-IsExact, completed_now_iff,
  freeze_stage_timer-update_stage_timer,
}
use smoker_firmware.Tests.Demo.{celsius_50, limits, minute}

abbrev halfway : TimerRuntimeState
halfway = record {
  started = true;
  completed = false;
  started_at = some (pos 500);
  elapsed = pos 10;
}

minute_is_valid : is_valid_timer_configuration minute ≡ true
unfolding is_valid_timer_configuration
minute_is_valid = refl

evaluate_chamber_safety-none_example : (evaluate_chamber_safety (some celsius_50) limits ≡ none) ↔ (
    (u : Temperature) × (some celsius_50 ≡ some u)
    × (temp_gt u limits.maximum_chamber_temperature ≡ false))
evaluate_chamber_safety-none_example = evaluate_chamber_safety-none (some celsius_50) limits

new_timer-IsExact : IsExact minute new_timer
new_timer-IsExact = record {
  consistent = new_timer-IsConsistent minute minute_is_valid;
  complete = λ e. absurd (ground (arith, e));
}

update_stage_timer-IsExact_example :
    IsExact minute (update_stage_timer minute new_timer (pos 500) none []).0
update_stage_timer-IsExact_example =
    update_stage_timer-IsExact minute new_timer (pos 500) none [] minute_is_valid new_timer-IsExact

completed_now_iff_example :
    ((update_stage_timer minute halfway (pos 60500) none []).1.completed_now ≡ true)
    ↔ (pos 500 +ℤ pos 60000 ≤ℤ pos 60500)
completed_now_iff_example =
    completed_now_iff minute halfway (pos 500) (pos 60500) none [] minute_is_valid refl refl refl

freeze_stage_timer-update_stage_timer_example :
    ((update_stage_timer minute halfway (pos 2500) none []).0.elapsed
      ≡ min_ℤ (freeze_stage_timer halfway (pos 2500)).elapsed (pos 60000))
    × (((update_stage_timer minute halfway (pos 2500) none []).0.completed ≡ true)
        ↔ (pos 60000 ≤ℤ (freeze_stage_timer halfway (pos 2500)).elapsed))
    × ((freeze_stage_timer halfway (pos 2500)).elapsed ≡ pos 2500 -ℤ pos 500)
freeze_stage_timer-update_stage_timer_example =
    freeze_stage_timer-update_stage_timer minute halfway (pos 500) (pos 2500) none []
      minute_is_valid refl refl refl (omega arith)

-- A minute after its start the timer completes, with the whole minute elapsed.
minute_completes : (update_stage_timer minute halfway (pos 60500) none []).0.elapsed ≡ pos 60000
unfolding update_stage_timer is_valid_timer_configuration ◌-ℤ◌
minute_completes = refl
