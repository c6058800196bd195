-- ===== src/App/Tick/QueueFrame.antt =====
-- components/smoker_app/src/smoker_application.cpp: only the command loop of a cycle takes from the
-- queue.
use smoker_firmware.Common.{
  List, [], ◌∷◌, false, Option, none, some, arith, if◌then◌else◌, has_value, ◌≡◌, refl, Bool-cases,
  inl, inr,
}
use smoker_firmware.Core.Domain.{
  TimePoint, Session, is_running, FaultCode, StageTimer, AlarmCode, off, HeaterDemand,
}
use smoker_firmware.Core.Safety.{apply_safety_gate}
use smoker_firmware.Core.Timer.{TimerUpdate}
use smoker_firmware.App.Commands.{Ports}
use smoker_firmware.App.State.{
  App, ProbeRuntime, session_running, current_session_status, raise_alarm, resolve_probe_alarms,
}
use smoker_firmware.App.Session.{
  finish_timer, report_timer, update_timer_of, update_session_timer, stop_running_session,
  raise_fault, evaluate_safety,
}
use smoker_firmware.App.Probes.{
  connect, note_connection, raise_probe_alarms, evaluate_probe_state, evaluate_one, evaluate_each,
}
use smoker_firmware.App.Tick.{
  write_heater, latch_controller_failure, retry_reset, request_demand, release_ineligible,
}

-- The phases after the commands: the queue stays, and a session that does not run stays so.
pub record IsQuiet (a b : App) : Type 0 where
  pub queue : b.queue ≡ a.queue
  pub stays : session_running a.session ≡ false → session_running b.session ≡ false

pub IsQuiet-trans : {a b c : App} → IsQuiet a b → IsQuiet b c → IsQuiet a c
IsQuiet-trans p q = ground arith

note_connection-IsQuiet :
    (p : ProbeRuntime) (now : TimePoint) (a : App) → IsQuiet a (note_connection p now a)
unfolding note_connection
note_connection-IsQuiet p now a = ground arith

raise_probe_alarms-IsQuiet :
    (p : ProbeRuntime) (now : TimePoint) (a : App) → IsQuiet a (raise_probe_alarms p now a).1
unfolding raise_probe_alarms
raise_probe_alarms-IsQuiet p now a = ground arith

evaluate_one-IsQuiet :
    (p : ProbeRuntime) (now : TimePoint) (a : App) → IsQuiet a (evaluate_one p now a).1
unfolding evaluate_one evaluate_probe_state resolve_probe_alarms
evaluate_one-IsQuiet p now a =
    let c : App =
      if has_value p.current_temperature
      then resolve_probe_alarms AlarmCode.probe_disconnected p.default_configuration.id
          (note_connection p now a)
      else note_connection p now a in
    ground (arith, note_connection-IsQuiet p now a, raise_probe_alarms-IsQuiet (connect p) now c)

pub evaluate_each-IsQuiet :
    (ps : List ProbeRuntime) (now : TimePoint) (a : App) → IsQuiet a (evaluate_each ps now a).1
unfolding evaluate_each
evaluate_each-IsQuiet [] now a = ground arith
evaluate_each-IsQuiet (p ∷ ps) now a =
    IsQuiet-trans (evaluate_one-IsQuiet p now a) (evaluate_each-IsQuiet ps now _)

report_timer-queue :
    (c : StageTimer) (u : TimerUpdate) (now : TimePoint) (a : App)
    → (report_timer c u now a).queue ≡ a.queue
unfolding report_timer finish_timer stop_running_session raise_alarm
report_timer-queue c u now a = ground arith

update_timer_of-queue :
    (s : Session) (c : Option StageTimer) (now : TimePoint) (a : App)
    → (update_timer_of s c now a).queue ≡ a.queue
unfolding update_timer_of
update_timer_of-queue s none now a = refl
update_timer_of-queue s (some c) now a = report_timer-queue c _ now _

pub update_session_timer-IsQuiet :
    (o : Option Session) (now : TimePoint) (a : App)
    → a.session ≡ o
    → IsQuiet a (update_session_timer o now a)
unfolding update_session_timer
update_session_timer-IsQuiet none now a e = ground arith
update_session_timer-IsQuiet (some s) now a e = elim (Bool-cases (is_running s.status)) [
  | inl on ↦ rw on (record {
    queue = update_timer_of-queue s s.recipe_snapshot.stage.timer now a;
    stays = λ h. absurd (ground arith);
  })
  | inr off ↦ rw off (ground arith)
]

raise_fault-IsQuiet :
    (code : FaultCode) (now : TimePoint) (a : App) → IsQuiet a (raise_fault code now a)
unfolding raise_fault
raise_fault-IsQuiet code now a = ground arith

evaluate_safety-IsQuiet : (now : TimePoint) (a : App) → IsQuiet a (evaluate_safety now a)
unfolding evaluate_safety
evaluate_safety-IsQuiet now a = ground arith

latch_controller_failure-IsQuiet :
    (now : TimePoint) (a : App) → IsQuiet a (latch_controller_failure now a)
unfolding latch_controller_failure
latch_controller_failure-IsQuiet now a = ground arith

retry_reset-IsQuiet : (ports : Ports) (a : App) → IsQuiet a (retry_reset ports a)
unfolding retry_reset
retry_reset-IsQuiet ports a = ground arith

request_demand-IsQuiet : (ports : Ports) (a : App) → IsQuiet a (request_demand ports a).1
unfolding request_demand
request_demand-IsQuiet ports a = ground arith

release_ineligible-IsQuiet : (ports : Ports) (a : App) → IsQuiet a (release_ineligible ports a)
unfolding release_ineligible
release_ineligible-IsQuiet ports a = ground arith

unfoldable pub before_write : Ports → TimePoint → App → App
before_write ports now a =
    latch_controller_failure now (
      release_ineligible ports (evaluate_safety now (request_demand ports (retry_reset ports a)).1))

pub before_write-IsQuiet :
    (ports : Ports) (now : TimePoint) (a : App) → IsQuiet a (before_write ports now a)
unfolding before_write
before_write-IsQuiet ports now a = IsQuiet-trans (retry_reset-IsQuiet ports a) (
    IsQuiet-trans (request_demand-IsQuiet ports _) (
      IsQuiet-trans (evaluate_safety-IsQuiet now _) (
        IsQuiet-trans (release_ineligible-IsQuiet ports _)
          (latch_controller_failure-IsQuiet now _))))

pub write_heater_stopped :
    (d : HeaterDemand) (a : App)
    → session_running a.session ≡ false
    → (write_heater d a).heater_demand ≡ off
unfolding write_heater apply_safety_gate current_session_status
write_heater_stopped d a h = ground arith
