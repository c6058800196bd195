-- ===== src/App/Session.antt =====
-- components/smoker_app/src/smoker_application.cpp: `raise_fault`, `stop_running_session`,
-- `update_active_timer` and `evaluate_safety`.
use smoker_firmware.Common.{true, not, Option, none, some, if◌then◌else◌, has_value, map_option}
use smoker_firmware.Common.Int.{ltb_ℤ}
use smoker_firmware.Core.Domain.{
  TimePoint, Session, SessionStatus, is_running, StopReason, FaultCode, AlarmCode, EventType,
  StageTimer, TimerRuntimeState, TimerCompletionAction,
}
use smoker_firmware.Core.Safety.{evaluate_chamber_safety}
use smoker_firmware.Core.Timer.{TimerUpdate, update_stage_timer, freeze_stage_timer}
use smoker_firmware.App.State.{
  App, session_running, emit, emit_with, raise_alarm, resolve_all_alarms,
}

abbrev pub fault_session : TimePoint → Session → Session
fault_session now s = record s {
  timer = freeze_stage_timer s.timer now;
  status = SessionStatus.fault;
  stopped_at = some now;
  stop_reason = StopReason.fault;
}

unfoldable pub raise_fault : FaultCode → TimePoint → App → App
unfolding resolve_all_alarms emit_with
raise_fault code now a =
    if has_value a.active_fault
    then a
    else emit_with EventType.fault_raised now none none (some code) (record (resolve_all_alarms a) {
      active_fault = some (record { code = code; occurred_at = now; latched = true });
      session =
          if session_running a.session then map_option (fault_session now) a.session else a.session;
    })

-- The elapsed time of a stopped session does not pass the duration of its timer.
abbrev pub cap_elapsed : Option StageTimer → TimerRuntimeState → TimerRuntimeState
cap_elapsed none t = t
cap_elapsed (some c) t = if ltb_ℤ c.duration t.elapsed then record t { elapsed = c.duration } else t

abbrev pub stopped_session : StopReason → TimePoint → Session → Session
stopped_session reason now s = record s {
  timer = cap_elapsed s.recipe_snapshot.stage.timer (freeze_stage_timer s.timer now);
  status = SessionStatus.stopped;
  stopped_at = some now;
  stop_reason = reason;
}

unfoldable pub stop_running_session : StopReason → TimePoint → App → App
unfolding resolve_all_alarms emit_with
stop_running_session reason now a =
    if not (session_running a.session)
    then a
    else emit EventType.session_stopped now (
        resolve_all_alarms
          (record a { session = map_option (stopped_session reason now) a.session }))

unfoldable pub finish_timer : TimerCompletionAction → TimePoint → App → App
finish_timer TimerCompletionAction.stop_session now a =
    stop_running_session StopReason.timer_completed now a
finish_timer TimerCompletionAction.notify now a = raise_alarm AlarmCode.timer_completed none now a

-- What follows the update of a configured timer in a running session.
unfoldable pub report_timer : StageTimer → TimerUpdate → TimePoint → App → App
unfolding emit_with
report_timer c update now a =
    let b = if update.started_now then emit EventType.timer_started now a else a in
    if not update.completed_now
    then b
    else finish_timer c.completion_action now (emit EventType.timer_completed now b)

unfoldable pub update_timer_of : Session → Option StageTimer → TimePoint → App → App
update_timer_of s none now a = a
update_timer_of s (some c) now a =
    let (timer, update) = update_stage_timer c s.timer now a.chamber_temperature a.probe_readings in
    report_timer c update now (record a { session = some (record s { timer = timer }) })

unfoldable pub update_session_timer : Option Session → TimePoint → App → App
update_session_timer none now a = a
update_session_timer (some s) now a =
    if is_running s.status then update_timer_of s s.recipe_snapshot.stage.timer now a else a

unfoldable pub update_active_timer : TimePoint → App → App
update_active_timer now a = update_session_timer a.session now a

unfoldable pub evaluate_safety : TimePoint → App → App
unfolding raise_fault
evaluate_safety now a =
    if not a.configuration_valid
    then raise_fault FaultCode.configuration_invalid now a
    else elim (evaluate_chamber_safety a.chamber_temperature a.safety_limits) [
      | none ↦ a
      | some code ↦ raise_fault code now a
    ]
