-- ===== src/Tests/App.antt =====
-- components/smoker_app: the theorems at concrete inputs.
use smoker_firmware.Common.{
  ℕ, List, [], ◌∷◌, sym, ◌∙◌, ◌≡◌, ◌≢◌, ◌⊎◌, refl, ap, true, false, arith, any_of,
}
use smoker_firmware.Common.Float32
use smoker_firmware.Common.Int.{pos, ◌-ℤ◌}
use smoker_firmware.Core.Domain.{temp_gt, temp_ge, HeaterDemand, off}
use smoker_firmware.Core.Timer.{is_valid_timer_configuration, threshold_reached, update_stage_timer}
use smoker_firmware.Core.Safety.{apply_safety_gate, evaluate_chamber_safety}
use smoker_firmware.App.Commands.{Command}
use smoker_firmware.App.State.{
  session_running, drop_oldest, recipe_is_valid, current_session_status, controller_is_eligible,
  probe_exists, record_command_result, resolve_probe_alarms,
}
use smoker_firmware.App.Queue.{submit, enqueue, dequeue, trailing_stop_is_pending}
use smoker_firmware.App.Queue.Ring.{contents}
use smoker_firmware.App.Queue.Refine.{submit_list, submit_refines, submit_stop_accepted}
use smoker_firmware.App.Handlers.{process_start, process}
use smoker_firmware.App.Session.{
  update_active_timer, update_session_timer, update_timer_of, report_timer, evaluate_safety,
}
use smoker_firmware.App.Drain.{
  record_all, run_command, run_slot, run_head, drain, manual_stop_barrier, process_pending_commands,
}
use smoker_firmware.App.Drain.Order.{IsRest, run_head-IsRest}
use smoker_firmware.App.Drain.Stop.{Runs, process_pending_commands_ends}
use smoker_firmware.App.Probes.{
  sample, sample_all, copy_readings, acquire_raw_inputs, note_connection, connect,
  disconnect_alarm_due, target_alarm_due, raise_probe_alarms, evaluate_probe_state, evaluate_one,
  evaluate_each, evaluate_probe_states,
}
use smoker_firmware.App.Tick.{
  tick, report_overflow, update_session_elapsed, update_inputs, control_heater, request_demand,
  ask_controller, after_request, retry_reset, release_ineligible, latch_controller_failure,
  write_heater, publish_all, publish_pending_events, refresh_snapshot_view_cache,
}
use smoker_firmware.App.Tick.HeaterSafety.{IsPermitted, tick_heats-IsPermitted}
use smoker_firmware.App.Tick.Stop.{tick_stop}
use smoker_firmware.App.Tick.Writes.{heater_writes, tick-writes}
use smoker_firmware.App.Invariant.{IsCoherent}
use smoker_firmware.App.Invariant.Tick.{tick-IsCoherent}
use smoker_firmware.App.Boot.{add_probes, boot}
use smoker_firmware.App.Reach.{Reach, booted, submitted, ticked, IsSound, Reach-IsSound}
use smoker_firmware.App.Snapshot.{snapshot_view, snapshot, Agrees, tick-Agrees}
use smoker_firmware.Tests.Demo.{limits, ports, configuration, brisket, ready, running, stopping}

ready-Reach : Reach ports limits configuration ready
ready-Reach = submitted (Command.start_session 9 brisket) 21 booted

stopping-Reach : Reach ports limits configuration stopping
stopping-Reach =
    submitted (Command.start_session 10 brisket) 23
      (submitted Command.stop_session 22 (ticked ready-Reach))

-- What the first cycle writes to the heater; a test that unfolds it can run whole cycles.
first_heat : ℕ
unfolding tick update_inputs control_heater submit boot add_probes trailing_stop_is_pending enqueue
    dequeue report_overflow acquire_raw_inputs sample_all sample copy_readings
    process_pending_commands drain manual_stop_barrier run_head run_slot run_command record_all
    process process_start recipe_is_valid is_valid_timer_configuration evaluate_probe_states
    evaluate_each evaluate_one evaluate_probe_state note_connection connect raise_probe_alarms
    disconnect_alarm_due target_alarm_due resolve_probe_alarms update_active_timer
    update_session_timer update_timer_of report_timer update_stage_timer threshold_reached
    update_session_elapsed retry_reset request_demand ask_controller after_request
    controller_is_eligible evaluate_safety evaluate_chamber_safety release_ineligible
    latch_controller_failure write_heater apply_safety_gate current_session_status
    publish_pending_events publish_all refresh_snapshot_view_cache temp_gt temp_ge Float32.lt
    Float32.le Float32.rank probe_exists any_of record_command_result ◌-ℤ◌
first_heat = running.heater_demand.percent.magnitude

-- The first cycle starts the session and heats.
first_heat_full : first_heat ≡ 0x42c80000
unfolding first_heat
first_heat_full = refl

running_heats : heater_writes (tick ports ready).calls ≢ off ∷ heater_writes ready.calls
unfolding first_heat
running_heats e = absurd (
    omega (
      arith,
      ap {B = ℕ} (λ (ds : List HeaterDemand). elim ds [ [] ↦ 0 | d ∷ rest ↦ d.percent.magnitude ])
          (sym (tick-writes ports ready) ∙ e),
    ))

stopping_barrier : manual_stop_barrier stopping ≡ true
unfolding first_heat
stopping_barrier = refl

stopping_count : stopping.queue.count ≡ 2
unfolding first_heat
stopping_count = refl

tick_heats-IsPermitted_example :
    (heater_writes (tick ports ready).calls
      ≡ (tick ports ready).heater_demand ∷ heater_writes ready.calls)
    × IsPermitted (tick ports ready)
tick_heats-IsPermitted_example = tick_heats-IsPermitted ports ready running_heats

tick-IsCoherent_example :
    let b = tick ports ready in
    IsCoherent b.safety_limits b.session b.active_fault b.firmware_update_active
tick-IsCoherent_example = tick-IsCoherent ports ready (Reach-IsSound ready-Reach).coherent

Reach-IsSound_example : IsSound stopping
Reach-IsSound_example = Reach-IsSound stopping-Reach

tick_stop_example :
    (heater_writes (tick ports stopping).calls ≡ off ∷ heater_writes stopping.calls)
    × ((tick ports stopping).heater_demand ≡ off)
    × (session_running (tick ports stopping).session ≡ false)
    × (contents (tick ports stopping).queue ≡ drop_oldest (contents stopping.queue))
tick_stop_example =
    tick_stop ports stopping (Reach-IsSound stopping-Reach).ring (omega (arith, stopping_count))
      stopping_barrier

submit_stop_accepted_example : (submit Command.stop_session 5 stopping).1 ≡ true
submit_stop_accepted_example = submit_stop_accepted 5 stopping (Reach-IsSound stopping-Reach).ring

submit_refines_example :
    (contents (submit Command.stop_session 5 stopping).0.queue
      ≡ (submit_list Command.stop_session 5 (contents stopping.queue)).0)
    × ((submit Command.stop_session 5 stopping).1
        ≡ (submit_list Command.stop_session 5 (contents stopping.queue)).1)
submit_refines_example =
    submit_refines Command.stop_session 5 stopping (Reach-IsSound stopping-Reach).ring

process_pending_commands_ends_example :
    Runs (pos 7) stopping (process_pending_commands (pos 7) stopping)
    × (((process_pending_commands (pos 7) stopping).queue.count ≡ 0)
        ⊎ (session_running (process_pending_commands (pos 7) stopping).session ≡ false))
process_pending_commands_ends_example =
    process_pending_commands_ends (pos 7) stopping (Reach-IsSound stopping-Reach).ring

run_head-IsRest_example : IsRest stopping.queue (run_head (pos 7) stopping).queue
run_head-IsRest_example =
    run_head-IsRest (pos 7) stopping (Reach-IsSound stopping-Reach).ring
      (omega (arith, stopping_count))

tick-Agrees_example : Agrees (snapshot_view (tick ports ready)) (snapshot (tick ports ready))
tick-Agrees_example = tick-Agrees ports ready
