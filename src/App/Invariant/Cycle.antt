-- ===== src/App/Invariant/Cycle.antt =====
-- components/smoker_app/src/smoker_application.cpp: `tick` keeps the invariant.
use smoker_firmware.Common.{
  ℕ, zero, suc, List, [], ◌∷◌, Bool, false, Option, none, some, arith, if◌then◌else◌, has_value,
  ◌≡◌, inl, inr, refl, sym, subst, Bool-cases, ltb,
}
use smoker_firmware.Core.Domain.{
  TimePoint, Session, is_running, StageTimer, TimerCompletionAction, StopReason, AlarmCode,
  EventType,
}
use smoker_firmware.Core.Timer.{TimerUpdate, update_stage_timer}
use smoker_firmware.Core.Timer.Laws.{update_stage_timer-IsConsistent}
use smoker_firmware.App.State.{
  App, ProbeRuntime, QueuedCommand, record_command_result, raise_alarm, emit, emit_with,
  resolve_probe_alarms,
}
use smoker_firmware.App.Session.{
  finish_timer, report_timer, update_timer_of, update_session_timer, update_active_timer,
}
use smoker_firmware.App.Drain.{
  record_all, run_command, run_slot, run_head, manual_stop_barrier, drain,
}
use smoker_firmware.App.Queue.{slot}
use smoker_firmware.App.Probes.{
  note_connection, raise_probe_alarms, connect, evaluate_probe_state, evaluate_one, evaluate_each,
  evaluate_probe_states,
}
use smoker_firmware.App.Invariant.{TimerFits, IsCoherent, Coherent, IsSame, IsSame-Coherent}
use smoker_firmware.App.Invariant.Handlers.{process-Coherent, stop_running_session-Coherent}

pub IsSame-trans : {a b c : App} → IsSame a b → IsSame b c → IsSame a c
IsSame-trans p q = ground arith

pub record_command_result-IsSame :
    (id : ℕ) (ok : Bool) (a : App) → IsSame a (record_command_result id ok a)
unfolding record_command_result
record_command_result-IsSame id ok a = ground arith

pub record_all-IsSame : (ids : List ℕ) (ok : Bool) (a : App) → IsSame a (record_all ids ok a)
unfolding record_all
record_all-IsSame [] ok a = ground arith
record_all-IsSame (id ∷ ids) ok a =
    IsSame-trans (record_command_result-IsSame id ok a)
      (record_all-IsSame ids ok (record_command_result id ok a))

run_command-Coherent :
    (c : QueuedCommand) (now : TimePoint) (a : App) → Coherent a → Coherent (run_command c now a)
unfolding run_command
run_command-Coherent c now a v =
    IsSame-Coherent
      (IsSame-trans (record_command_result-IsSame c.correlation_id _ _)
        (record_all-IsSame c.coalesced_correlation_ids _ _))
      (process-Coherent c.command now (record a { current_command_rejected = false }) v)

run_slot-Coherent :
    (c : Option QueuedCommand) (now : TimePoint) (a : App)
    → Coherent a
    → Coherent (run_slot c now a)
unfolding run_slot
run_slot-Coherent none now a v = v
run_slot-Coherent (some c) now a v = run_command-Coherent c now a v

pub run_head-Coherent : (now : TimePoint) (a : App) → Coherent a → Coherent (run_head now a)
unfolding run_head
run_head-Coherent now a v = run_slot-Coherent (slot a.queue a.queue.head) now a v

pub drain-Coherent :
    (fuel : ℕ) (now : TimePoint) (a : App) → Coherent a → Coherent (drain fuel now a)
unfolding drain
drain-Coherent zero now a v = v
drain-Coherent (suc fuel) now a v = elim (Bool-cases (ltb 0 a.queue.count)) [
  | inl more ↦ elim (Bool-cases (manual_stop_barrier a)) [
    | inl stop ↦ rw (more, stop) (run_head-Coherent now a v)
    | inr on ↦ rw (more, on) (drain-Coherent fuel now (run_head now a) (run_head-Coherent now a v))
  ]
  | inr done ↦ rw done v
]

note_connection-IsSame :
    (p : ProbeRuntime) (now : TimePoint) (a : App) → IsSame a (note_connection p now a)
unfolding note_connection
note_connection-IsSame p now a = ground arith

raise_probe_alarms-IsSame :
    (p : ProbeRuntime) (now : TimePoint) (a : App) → IsSame a (raise_probe_alarms p now a).1
unfolding raise_probe_alarms
raise_probe_alarms-IsSame p now a = ground arith

evaluate_probe_state-IsSame :
    (p : ProbeRuntime) (now : TimePoint) (a : App) → IsSame a (evaluate_probe_state p now a).1
unfolding evaluate_probe_state resolve_probe_alarms
evaluate_probe_state-IsSame p now a =
    let c : App =
      if has_value p.current_temperature
      then resolve_probe_alarms AlarmCode.probe_disconnected p.default_configuration.id
          (note_connection p now a)
      else note_connection p now a in
    ground (arith, note_connection-IsSame p now a, raise_probe_alarms-IsSame (connect p) now c)

evaluate_one-IsSame :
    (p : ProbeRuntime) (now : TimePoint) (a : App) → IsSame a (evaluate_one p now a).1
unfolding evaluate_one
evaluate_one-IsSame p now a = ground (arith, evaluate_probe_state-IsSame p now a)

evaluate_each-IsSame :
    (ps : List ProbeRuntime) (now : TimePoint) (a : App) → IsSame a (evaluate_each ps now a).1
unfolding evaluate_each
evaluate_each-IsSame [] now a = ground arith
evaluate_each-IsSame (p ∷ ps) now a =
    IsSame-trans (evaluate_one-IsSame p now a) (evaluate_each-IsSame ps now _)

finish_timer-Coherent :
    (t : TimerCompletionAction) (now : TimePoint) (a : App)
    → Coherent a
    → Coherent (finish_timer t now a)
unfolding finish_timer raise_alarm
finish_timer-Coherent TimerCompletionAction.notify now a v = v
finish_timer-Coherent TimerCompletionAction.stop_session now a v =
    stop_running_session-Coherent StopReason.timer_completed now a v

started-Coherent :
    (u : TimerUpdate) (now : TimePoint) (a : App)
    → Coherent a
    → Coherent (if u.started_now then emit EventType.timer_started now a else a)
unfolding emit_with
started-Coherent u now a v = ground arith

report_timer-Coherent :
    (c : StageTimer) (u : TimerUpdate) (now : TimePoint) (a : App)
    → Coherent a
    → Coherent (report_timer c u now a)
unfolding report_timer emit_with
report_timer-Coherent c u now a v = elim (Bool-cases u.completed_now) [
  | inl done ↦
      rw done (finish_timer-Coherent c.completion_action now _ (started-Coherent u now a v))
  | inr more ↦ rw more (started-Coherent u now a v)
]

update_timer_of-Coherent :
    (s : Session) (c : Option StageTimer) (now : TimePoint) (a : App)
    → a.session ≡ some s
    → s.recipe_snapshot.stage.timer ≡ c
    → Coherent a
    → Coherent (update_timer_of s c now a)
unfolding update_timer_of
update_timer_of-Coherent s none now a e f v = v
update_timer_of-Coherent s (some c) now a e f v =
    let r = update_stage_timer c s.timer now a.chamber_temperature a.probe_readings in
    let here : IsCoherent a.safety_limits (some s) a.active_fault a.firmware_update_active =
      subst (λ x. IsCoherent a.safety_limits x a.active_fault a.firmware_update_active) e v in
    let fits : TimerFits (some c) s.timer = subst (λ x. TimerFits x s.timer) f here.timed in
    report_timer-Coherent c r.1 now (record a { session = some (record s { timer = r.0 }) })
      (record {
        fault_stops = here.fault_stops;
        update_stops = here.update_stops;
        fault_marked = here.fault_marked;
        limited = here.limited;
        timed =
            subst (λ x. TimerFits x r.0) (sym f)
              (fits.0, update_stage_timer-IsConsistent c s.timer now _ _ fits.1);
      })

update_session_timer-Coherent :
    (o : Option Session) (now : TimePoint) (a : App)
    → a.session ≡ o
    → Coherent a
    → Coherent (update_session_timer o now a)
unfolding update_session_timer
update_session_timer-Coherent none now a e v = v
update_session_timer-Coherent (some s) now a e v = elim (Bool-cases (is_running s.status)) [
  | inl on ↦ rw on (update_timer_of-Coherent s s.recipe_snapshot.stage.timer now a e refl v)
  | inr off ↦ rw off v
]

pub update_active_timer-Coherent :
    (now : TimePoint) (a : App) → Coherent a → Coherent (update_active_timer now a)
unfolding update_active_timer
update_active_timer-Coherent now a v = update_session_timer-Coherent a.session now a refl v

pub evaluate_probe_states-IsSame :
    (now : TimePoint) (a : App) → IsSame a (evaluate_probe_states now a)
unfolding evaluate_probe_states
evaluate_probe_states-IsSame now a = ground (arith, evaluate_each-IsSame a.probes now a)
