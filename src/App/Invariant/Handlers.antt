-- ===== src/App/Invariant/Handlers.antt =====
-- components/smoker_app/src/smoker_application.cpp: each command keeps the invariant.
use smoker_firmware.Common.{
  ℕ, List, Bool, true, false, Option, none, some, arith, holds, ◌≡◌, inl, inr, refl, ◌∙◌,
  Bool-cases, map_option,
}
use smoker_firmware.Core.Domain.{
  Temperature, temp_gt, TimePoint, Recipe, Session, StageTimer, TimerRuntimeState, new_timer,
  SafetyLimits, StopReason,
}
use smoker_firmware.Core.Timer.{is_valid_timer_configuration, freeze_stage_timer}
use smoker_firmware.Core.Timer.Laws.{
  IsConsistent, new_timer-IsConsistent, freeze_stage_timer-IsFrozen,
}
use smoker_firmware.App.Commands.{Command}
use smoker_firmware.App.State.{App, ProbeRuntime, timer_is_valid, session_running, recipe_is_valid}
use smoker_firmware.App.Session.{cap_elapsed, stop_running_session, stopped_session}
use smoker_firmware.App.Handlers.{
  start_refused, process_start, process_stop, process_set_chamber_target, process_set_probe_target,
  process_set_probe_enabled, process_set_probe_alarm_enabled, process_acknowledge_alarm,
  process_clear_resolved_fault, process_prepare_firmware_update, process_finish_firmware_update,
  process,
}
use smoker_firmware.App.Invariant.{
  session_faulted, target_too_hot, TimerFits, SessionFits, Coherent, IsSame, IsSame-Coherent,
}

probe_target-IsSame :
    (id : ℕ) (t : Option Temperature) (now : TimePoint) (a : App)
    → IsSame a (process_set_probe_target id t now a)
unfolding process_set_probe_target
probe_target-IsSame id t now a = ground arith

probe_enabled-IsSame :
    (id : ℕ) (b : Bool) (now : TimePoint) (a : App)
    → IsSame a (process_set_probe_enabled id b now a)
unfolding process_set_probe_enabled
probe_enabled-IsSame id b now a = ground arith

probe_alarm_enabled-IsSame :
    (id : ℕ) (b : Bool) (now : TimePoint) (a : App)
    → IsSame a (process_set_probe_alarm_enabled id b now a)
unfolding process_set_probe_alarm_enabled
probe_alarm_enabled-IsSame id b now a = ground arith

acknowledge_alarm-IsSame :
    (id : ℕ) (now : TimePoint) (a : App) → IsSame a (process_acknowledge_alarm id now a)
unfolding process_acknowledge_alarm
acknowledge_alarm-IsSame id now a = ground arith

set_chamber_target-Coherent :
    (t : Option Temperature) (now : TimePoint) (a : App)
    → Coherent a
    → Coherent (process_set_chamber_target t now a)
unfolding process_set_chamber_target
set_chamber_target-Coherent t now a c = ground arith

prepare-Coherent :
    (now : TimePoint) (a : App) → Coherent a → Coherent (process_prepare_firmware_update now a)
unfolding process_prepare_firmware_update
prepare-Coherent now a c = ground arith

finish-Coherent :
    (now : TimePoint) (a : App) → Coherent a → Coherent (process_finish_firmware_update now a)
unfolding process_finish_firmware_update
finish-Coherent now a c = ground arith

clear-Coherent :
    (now : TimePoint) (a : App) → Coherent a → Coherent (process_clear_resolved_fault now a)
unfolding process_clear_resolved_fault
clear-Coherent now a c = ground arith

-- Freezing and capping keep a timer that fits its configuration.
cap_elapsed-IsConsistent :
    (c : StageTimer) (t : TimerRuntimeState) (now : TimePoint)
    → IsConsistent c t
    → IsConsistent c (cap_elapsed (some c) (freeze_stage_timer t now))
cap_elapsed-IsConsistent c t now v = ground (arith, freeze_stage_timer-IsFrozen t now)

cap_elapsed-TimerFits :
    (c : Option StageTimer) (t : TimerRuntimeState) (now : TimePoint)
    → TimerFits c t
    → TimerFits c (cap_elapsed c (freeze_stage_timer t now))
unfolding freeze_stage_timer
cap_elapsed-TimerFits none t now e = ground arith
cap_elapsed-TimerFits (some c) t now v = (v.0, cap_elapsed-IsConsistent c t now v.1)

stopped-SessionFits :
    (r : StopReason) (now : TimePoint) (o : Option Session)
    → SessionFits o
    → SessionFits (map_option (stopped_session r now) o)
stopped-SessionFits r now none v = tt
stopped-SessionFits r now (some s) v =
    cap_elapsed-TimerFits s.recipe_snapshot.stage.timer s.timer now v

-- A stopped session neither runs nor is in the fault state, and keeps its target.
pub stopped-quiet :
    (r : StopReason) (now : TimePoint) (limits : SafetyLimits) (o : Option Session)
    → let s = map_option (stopped_session r now) o in
      (session_running s ≡ false)
      × (session_faulted s ≡ false)
      × (target_too_hot limits s ≡ target_too_hot limits o)
stopped-quiet r now limits none = (refl, refl, refl)
stopped-quiet r now limits (some s) = (refl, refl, refl)

pub stop_running_session-Coherent :
    (r : StopReason) (now : TimePoint) (a : App)
    → Coherent a
    → Coherent (stop_running_session r now a)
unfolding stop_running_session
stop_running_session-Coherent r now a c =
    let quiet = stopped-quiet r now a.safety_limits a.session in
    elim (Bool-cases (session_running a.session)) [
      | inl on ↦ rw on (record {
        fault_stops = λ _. quiet.0;
        update_stops = λ _. quiet.0;
        fault_marked = λ e. absurd (cc);
        limited = quiet.2 ∙ c.limited;
        timed = stopped-SessionFits r now a.session c.timed;
      })
      | inr off ↦ rw off c
    ]

stop-Coherent : (now : TimePoint) (a : App) → Coherent a → Coherent (process_stop now a)
unfolding process_stop
stop-Coherent now a c = ground (arith, stop_running_session-Coherent StopReason.user now a)

timer_is_valid-TimerFits :
    (c : Option StageTimer) (probes : List ProbeRuntime)
    → timer_is_valid c probes ≡ true
    → TimerFits c new_timer
timer_is_valid-TimerFits none probes h = refl
timer_is_valid-TimerFits (some c) probes h =
    let valid : is_valid_timer_configuration c ≡ true = ground arith in
    (valid, new_timer-IsConsistent c valid)

recipe_is_valid-fits :
    (a : App) (r : Recipe)
    → recipe_is_valid a r ≡ true
    → TimerFits r.stage.timer new_timer
      × (holds r.stage.chamber_target (λ t. temp_gt t a.safety_limits.maximum_chamber_temperature)
          ≡ false)
unfolding recipe_is_valid
recipe_is_valid-fits a r h =
    (timer_is_valid-TimerFits r.stage.timer a.probes (ground arith), ground arith)

start-Coherent :
    (id : ℕ) (r : Recipe) (now : TimePoint) (a : App)
    → Coherent a
    → Coherent (process_start id r now a)
unfolding process_start
start-Coherent id r now a c = elim (Bool-cases (start_refused a r)) [
  | inl refused ↦ rw refused c
  | inr accepted ↦
      let (fits, cool) = recipe_is_valid-fits a r (ground arith) in
      rw accepted (record {
        fault_stops = λ e. ground arith;
        update_stops = λ e. ground arith;
        fault_marked = λ e. absurd (cc);
        limited = cool;
        timed = fits;
      })
]

-- Every command keeps the invariant, accepted or not.
pub process-Coherent :
    (m : Command) (now : TimePoint) (a : App) → Coherent a → Coherent (process m now a)
unfolding process
process-Coherent (Command.start_session id recipe) now a c = start-Coherent id recipe now a c
process-Coherent Command.stop_session now a c = stop-Coherent now a c
process-Coherent (Command.set_chamber_target t) now a c = set_chamber_target-Coherent t now a c
process-Coherent (Command.set_probe_target id t) now a c =
    IsSame-Coherent (probe_target-IsSame id t now a) c
process-Coherent (Command.set_probe_enabled id b) now a c =
    IsSame-Coherent (probe_enabled-IsSame id b now a) c
process-Coherent (Command.set_probe_alarm_enabled id b) now a c =
    IsSame-Coherent (probe_alarm_enabled-IsSame id b now a) c
process-Coherent (Command.acknowledge_alarm id) now a c =
    IsSame-Coherent (acknowledge_alarm-IsSame id now a) c
process-Coherent Command.clear_resolved_fault now a c = clear-Coherent now a c
process-Coherent Command.prepare_firmware_update now a c = prepare-Coherent now a c
process-Coherent Command.finish_firmware_update now a c = finish-Coherent now a c
