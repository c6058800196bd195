-- ===== src/Tests/Firmware.antt =====
-- An update on concrete inputs: version 1.0.0 runs, an image of 1.10.2 is checked and installed.
use smoker_firmware.Common.{
  ℕ, ◌+◌, ◌*◌, ◌≤◌, ◌<◌, ◌≡◌, ◌↔◌, ◌⊎◌, refl, List, [], ◌∷◌, ◌++◌, true, false, none, some, arith,
  any_of, replicate, find_if,
}
use smoker_firmware.Common.Int.{pos, ◌≤ℤ◌}
use smoker_firmware.Core.Domain.{SessionStatus}
use smoker_firmware.App.Commands.{Command, CommandResult}
use smoker_firmware.App.State.{App, session_running}
use smoker_firmware.App.Queue.{submit}
use smoker_firmware.App.Tick.{tick}
use smoker_firmware.App.Boot.{add_probes, boot}
use smoker_firmware.Common.Float32
use smoker_firmware.Common.Int.{◌-ℤ◌}
use smoker_firmware.Core.Domain.{temp_gt, temp_ge}
use smoker_firmware.Core.Timer.{is_valid_timer_configuration, threshold_reached, update_stage_timer}
use smoker_firmware.Core.Safety.{apply_safety_gate, evaluate_chamber_safety}
use smoker_firmware.App.State.{
  recipe_is_valid, current_session_status, controller_is_eligible, probe_exists,
  record_command_result, resolve_probe_alarms,
}
use smoker_firmware.App.Queue.{enqueue, dequeue, trailing_stop_is_pending}
use smoker_firmware.App.Handlers.{process}
use smoker_firmware.App.Session.{
  update_active_timer, update_session_timer, update_timer_of, report_timer, evaluate_safety,
}
use smoker_firmware.App.Drain.{
  record_all, run_command, run_slot, run_head, drain, manual_stop_barrier, process_pending_commands,
}
use smoker_firmware.App.Probes.{
  sample, sample_all, copy_readings, acquire_raw_inputs, note_connection, connect,
  disconnect_alarm_due, target_alarm_due, raise_probe_alarms, evaluate_probe_state, evaluate_one,
  evaluate_each, evaluate_probe_states,
}
use smoker_firmware.App.Tick.{
  report_overflow, update_session_elapsed, update_inputs, control_heater, request_demand,
  ask_controller, after_request, retry_reset, release_ineligible, latch_controller_failure,
  write_heater, publish_all, publish_pending_events, refresh_snapshot_view_cache,
}
use smoker_firmware.App.Handlers.{process_prepare_firmware_update}
use smoker_firmware.App.Reach
use smoker_firmware.App.Snapshot.{snapshot_view}
use smoker_firmware.Firmware.Version.{Text, SemanticVersion, parse}
use smoker_firmware.Firmware.Version.Text.{print, IsVersion}
use smoker_firmware.Firmware.Version.Parse.{parse_iff}
use smoker_firmware.Firmware.Image.{
  FirmwareImageMetadata, firmware_project_name, descriptor, parse_firmware_image_metadata,
}
use smoker_firmware.Firmware.Deadline.{
  new_deadline, expired, remaining_milliseconds, remaining_milliseconds_bounds,
}
use smoker_firmware.Firmware.Coordinator.{
  Coordinator, new_coordinator, begin_check, complete_check, begin_install,
  observe_application_snapshot, fail, cancel_install,
}
use smoker_firmware.Firmware.Coordinator.Invariant.{IsCoordinator, holds_permission}
use smoker_firmware.Firmware.Coordinator.Permission.{IsReturned}
use smoker_firmware.Firmware.Coordinator.Reach as Calls
use smoker_firmware.Firmware.Coordinator.Reach.{Reach-IsCoordinator, Later-IsReturned}
use smoker_firmware.Firmware.Coordinator.Start.{permission_result, observe-starts}
use smoker_firmware.Tests.Demo.{ports, limits, configuration}

-- "1.0.0" and "1.10.2"
abbrev text_1_0_0 : Text
text_1_0_0 = 49 ∷ 46 ∷ 48 ∷ 46 ∷ 48 ∷ []

abbrev text_1_10_2 : Text
text_1_10_2 = 49 ∷ 46 ∷ 49 ∷ 48 ∷ 46 ∷ 50 ∷ []

abbrev version_1_10_2 : SemanticVersion
version_1_10_2 = record { major = 1; minor = 10; patch = 2 }

parse_iff_example :
    (parse text_1_10_2 ≡ some version_1_10_2)
    ↔ (IsVersion version_1_10_2 × (text_1_10_2 ≡ print version_1_10_2))
parse_iff_example = parse_iff text_1_10_2 version_1_10_2

parsed_1_10_2 : parse text_1_10_2 ≡ some version_1_10_2
unfolding parse
parsed_1_10_2 = refl

-- "01.0.0" has a leading zero.
refused_01 : parse (48 ∷ text_1_0_0) ≡ none
unfolding parse
refused_01 = refl

remaining_milliseconds_bounds_example :
    (remaining_milliseconds (new_deadline (pos 0) (pos 2500)) (pos 100) (pos 50) ≤ 50)
    × (((remaining_milliseconds (new_deadline (pos 0) (pos 2500)) (pos 100) (pos 50) ≡ 0)
          ↔ ((expired (new_deadline (pos 0) (pos 2500)) (pos 100) ≡ true) ⊎ (pos 50 ≤ℤ pos 0)))
        × (0 < remaining_milliseconds (new_deadline (pos 0) (pos 2500)) (pos 100) (pos 50)
            → remaining_milliseconds (new_deadline (pos 0) (pos 2500)) (pos 100) (pos 50) < 50
            → ((new_deadline (pos 0) (pos 2500)).expires_at_microseconds
                ≤ 100
                  + 1000
                    * remaining_milliseconds (new_deadline (pos 0) (pos 2500)) (pos 100) (pos 50))
              × (100
                    + 1000
                      * remaining_milliseconds (new_deadline (pos 0) (pos 2500)) (pos 100) (pos 50)
                  < (new_deadline (pos 0) (pos 2500)).expires_at_microseconds + 1000)))
remaining_milliseconds_bounds_example =
    remaining_milliseconds_bounds (new_deadline (pos 0) (pos 2500)) (pos 100) (pos 50) (omega arith)

-- The first 288 bytes of an image of the project, for the chip 9.
abbrev image : List ℕ
image =
    0xe9
    ∷ (replicate 11 0
        ++ (9
            ∷ (replicate 19 0
                ++ (0x32
                    ∷ 0x54
                    ∷ 0xcd
                    ∷ 0xab
                    ∷ (replicate 12 0
                        ++ (text_1_10_2
                            ++ (replicate 26 0 ++ (firmware_project_name ++ replicate 191 0))))))))

abbrev metadata : FirmwareImageMetadata
metadata = record { chip_id = 9; project_name = firmware_project_name; version = text_1_10_2 }

image-metadata : parse_firmware_image_metadata image ≡ some metadata
unfolding parse_firmware_image_metadata
image-metadata = refl

abbrev offered : Coordinator
offered = complete_check (descriptor metadata) (begin_check (new_coordinator text_1_0_0)).1

abbrev requested : Coordinator
requested = (begin_install text_1_10_2 SessionStatus.idle 5 offered).1

requested-Reach : Calls.Reach text_1_0_0 requested
requested-Reach =
    Calls.Reach.install text_1_10_2 SessionStatus.idle 5
      (Calls.Reach.checked image metadata image-metadata (Calls.Reach.check Calls.Reach.booted))

Reach-IsCoordinator_example : IsCoordinator requested
Reach-IsCoordinator_example = Reach-IsCoordinator requested-Reach

requested_waits : holds_permission requested.status.state ≡ true
unfolding begin_install complete_check begin_check new_coordinator
requested_waits = refl

Later-IsReturned_example : IsReturned (fail "timeout" requested)
Later-IsReturned_example =
    Later-IsReturned requested-Reach requested_waits
      (Calls.Later.failing "timeout" Calls.Later.same)

-- The failure leaves no permission, but the signal, which a second installation that is cancelled
-- takes away before it is consumed.
abbrev lost_signal : Coordinator
lost_signal = cancel_install 6 (
    (begin_install text_1_10_2 SessionStatus.idle 6
      (complete_check (descriptor metadata) (begin_check (fail "timeout" requested)).1)).1)

the_signal_is_lost :
    ((fail "timeout" requested).finish_signal ≡ true)
    × (lost_signal.finish_signal ≡ false)
    × (holds_permission lost_signal.status.state ≡ false)
unfolding begin_install complete_check begin_check new_coordinator fail cancel_install
the_signal_is_lost = (refl, refl, refl)

accepted_request : (begin_install text_1_10_2 SessionStatus.idle 5 offered).0 ≡ true
unfolding begin_install complete_check begin_check new_coordinator
accepted_request = refl

-- The application after the command that asks for the permission.
abbrev locked : App
locked = tick ports (submit Command.prepare_firmware_update 5 (boot ports limits configuration)).0

requested-not_ready : requested.installation_ready ≡ false
unfolding begin_install complete_check begin_check new_coordinator
requested-not_ready = refl

locked-ready :
    (observe_application_snapshot (snapshot_view locked) requested).installation_ready ≡ true
unfolding tick update_inputs control_heater submit boot add_probes trailing_stop_is_pending enqueue
    dequeue report_overflow acquire_raw_inputs sample_all sample copy_readings
    process_pending_commands drain manual_stop_barrier run_head run_slot run_command record_all
    process recipe_is_valid is_valid_timer_configuration evaluate_probe_states evaluate_each
    evaluate_one evaluate_probe_state note_connection connect raise_probe_alarms
    disconnect_alarm_due target_alarm_due resolve_probe_alarms update_active_timer
    update_session_timer update_timer_of report_timer update_stage_timer threshold_reached
    update_session_elapsed retry_reset request_demand ask_controller after_request
    controller_is_eligible evaluate_safety evaluate_chamber_safety release_ineligible
    latch_controller_failure write_heater apply_safety_gate current_session_status
    publish_pending_events publish_all refresh_snapshot_view_cache temp_gt temp_ge Float32.lt
    Float32.le Float32.rank probe_exists any_of record_command_result ◌-ℤ◌
    process_prepare_firmware_update snapshot_view observe_application_snapshot begin_install
    complete_check begin_check new_coordinator find_if
locked-ready = refl

observe-starts_example :
    ((r : CommandResult) × ((permission_result requested locked.command_results ≡ some r)
        × (r.semantic_accepted ≡ true)))
    × (session_running locked.session ≡ false)
observe-starts_example =
    observe-starts (Reach.ticked (Reach.submitted Command.prepare_firmware_update 5 Reach.booted))
      requested requested-not_ready locked-ready
