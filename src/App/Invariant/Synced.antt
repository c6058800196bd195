-- ===== src/App/Invariant/Synced.antt =====
-- components/smoker_app/src/smoker_application.cpp: within one cycle a fault is raised after the
-- timer was updated for the same moment, so freezing the timer then changes nothing.
use smoker_firmware.Common.{
  true, false, not, ◌&&◌, Option, none, some, arith, if◌then◌else◌, has_value, ◌≡◌, inl, inr, refl,
  sym, ◌∙◌, subst, Bool-cases, map_option,
}
use smoker_firmware.Core.Domain.{
  TimePoint, Session, is_running, FaultCode, StageTimer, TimerCompletionAction, new_timer,
  SafetyLimits, StopReason, EventType,
}
use smoker_firmware.Core.Timer.{TimerUpdate, freeze_stage_timer}
use smoker_firmware.Core.Timer.Laws.{freeze_stage_timer_updated}
use smoker_firmware.App.State.{App, session_running, raise_alarm, emit, emit_with}
use smoker_firmware.App.Session.{
  finish_timer, report_timer, update_timer_of, update_session_timer, update_active_timer,
  stop_running_session, stopped_session, raise_fault, fault_session, evaluate_safety,
}
use smoker_firmware.App.Tick.{latch_controller_failure}
use smoker_firmware.App.Invariant.{TimerFits, SessionFits, Coherent, target_too_hot}

-- Freezing the timer of a running session now would change nothing.
abbrev pub IsSynced : TimePoint → Option Session → Type 0
IsSynced now none = Unit {0}
IsSynced now (some s) = is_running s.status ≡ true → freeze_stage_timer s.timer now ≡ s.timer

stopped-IsSynced :
    (r : StopReason) (now : TimePoint) (o : Option Session)
    → IsSynced now (map_option (stopped_session r now) o)
stopped-IsSynced r now none = tt
stopped-IsSynced r now (some s) = λ e. absurd (cc)

stop_running_session-IsSynced :
    (r : StopReason) (now : TimePoint) (a : App)
    → IsSynced now a.session
    → IsSynced now (stop_running_session r now a).session
unfolding stop_running_session
stop_running_session-IsSynced r now a v = elim (Bool-cases (session_running a.session)) [
  | inl on ↦ rw on (stopped-IsSynced r now a.session)
  | inr off ↦ rw off v
]

finish_timer-IsSynced :
    (t : TimerCompletionAction) (now : TimePoint) (a : App)
    → IsSynced now a.session
    → IsSynced now (finish_timer t now a).session
unfolding finish_timer raise_alarm
finish_timer-IsSynced TimerCompletionAction.notify now a v = v
finish_timer-IsSynced TimerCompletionAction.stop_session now a v =
    stop_running_session-IsSynced StopReason.timer_completed now a v

started-session :
    (u : TimerUpdate) (now : TimePoint) (a : App)
    → (if u.started_now then emit EventType.timer_started now a else a).session ≡ a.session
unfolding emit_with
started-session u now a = ground arith

report_timer-IsSynced :
    (c : StageTimer) (u : TimerUpdate) (now : TimePoint) (a : App)
    → IsSynced now a.session
    → IsSynced now (report_timer c u now a).session
unfolding report_timer emit_with
report_timer-IsSynced c u now a v =
    let w = subst (IsSynced now) (sym (started-session u now a)) v in
    elim (Bool-cases u.completed_now) [
      | inl done ↦ rw done (finish_timer-IsSynced c.completion_action now _ w)
      | inr more ↦ rw more w
    ]

freeze-new_timer : (now : TimePoint) → freeze_stage_timer new_timer now ≡ new_timer
unfolding freeze_stage_timer
freeze-new_timer now = refl

update_timer_of-IsSynced :
    (s : Session) (c : Option StageTimer) (now : TimePoint) (a : App)
    → a.session ≡ some s
    → TimerFits c s.timer
    → IsSynced now (update_timer_of s c now a).session
unfolding update_timer_of
update_timer_of-IsSynced s none now a e f =
    subst (IsSynced now) (sym e) (λ _. rw f (freeze-new_timer now))
update_timer_of-IsSynced s (some c) now a e f =
    report_timer-IsSynced c _ now _ (λ _. freeze_stage_timer_updated c s.timer now _ _ f.0)

update_session_timer-IsSynced :
    (o : Option Session) (now : TimePoint) (a : App)
    → a.session ≡ o
    → SessionFits o
    → IsSynced now (update_session_timer o now a).session
unfolding update_session_timer
update_session_timer-IsSynced none now a e f = subst (IsSynced now) (sym e) tt
update_session_timer-IsSynced (some s) now a e f = elim (Bool-cases (is_running s.status)) [
  | inl on ↦ rw on (update_timer_of-IsSynced s s.recipe_snapshot.stage.timer now a e f)
  | inr off ↦ rw off (subst (IsSynced now) (sym e) (λ h. absurd (cc)))
]

pub update_active_timer-IsSynced :
    (now : TimePoint) (a : App) → Coherent a → IsSynced now (update_active_timer now a).session
unfolding update_active_timer
update_active_timer-IsSynced now a v = update_session_timer-IsSynced a.session now a refl v.timed

fault-SessionFits :
    (now : TimePoint) (o : Option Session)
    → session_running o ≡ true
    → IsSynced now o
    → SessionFits o
    → SessionFits (map_option (fault_session now) o)
fault-SessionFits now none on y v = tt
fault-SessionFits now (some s) on y v =
    subst (TimerFits s.recipe_snapshot.stage.timer) (sym (y on)) v

fault-quiet :
    (now : TimePoint) (limits : SafetyLimits) (o : Option Session)
    → let s = map_option (fault_session now) o in
      (session_running s ≡ false) × (target_too_hot limits s ≡ target_too_hot limits o)
fault-quiet now limits none = (refl, refl)
fault-quiet now limits (some s) = (refl, refl)

-- A fault that is raised with the timer up to date keeps the invariant.
pub raise_fault-Coherent :
    (code : FaultCode) (now : TimePoint) (a : App)
    → Coherent a
    → IsSynced now a.session
    → Coherent (raise_fault code now a)
unfolding raise_fault
raise_fault-Coherent code now a v y =
    let quiet = fault-quiet now a.safety_limits a.session in
    elim (Bool-cases (has_value a.active_fault)) [
      | inl old ↦ rw old v
      | inr new ↦ elim (Bool-cases (session_running a.session)) [
        | inl on ↦
            rw (new, on)
              (record {
                fault_stops = λ _. quiet.0;
                update_stops = λ _. quiet.0;
                fault_marked = λ _. refl;
                limited = quiet.1 ∙ v.limited;
                timed = fault-SessionFits now a.session on y v.timed;
              })
        | inr off ↦
            rw (new, off)
              (record {
                fault_stops = λ _. off;
                update_stops = λ _. off;
                fault_marked = λ _. refl;
                limited = v.limited;
                timed = v.timed;
              })
      ]
    ]

pub raise_fault-IsSynced :
    (code : FaultCode) (now : TimePoint) (a : App)
    → IsSynced now a.session
    → IsSynced now (raise_fault code now a).session
unfolding raise_fault
raise_fault-IsSynced code now a y = elim (Bool-cases (has_value a.active_fault)) [
  | inl old ↦ rw old y
  | inr new ↦ elim (Bool-cases (session_running a.session)) [
    | inl on ↦ rw (new, on) (faulted a.session)
    | inr off ↦ rw (new, off) y
  ]
]
  where
    faulted : (o : Option Session) → IsSynced now (map_option (fault_session now) o)
    faulted none = tt
    faulted (some s) = λ e. absurd (cc)

-- The state carries the invariant and an up-to-date timer.
abbrev pub Settled : TimePoint → App → Type 0
Settled now a = Coherent a × IsSynced now a.session

pub evaluate_safety-Settled :
    (now : TimePoint) (a : App) → Settled now a → Settled now (evaluate_safety now a)
unfolding evaluate_safety
evaluate_safety-Settled now a v = ground (
  arith,
  raise_fault-Coherent FaultCode.configuration_invalid now a,
  raise_fault-IsSynced FaultCode.configuration_invalid now a,
)

pub latch_controller_failure-Coherent :
    (now : TimePoint) (a : App) → Settled now a → Coherent (latch_controller_failure now a)
unfolding latch_controller_failure
latch_controller_failure-Coherent now a v =
    elim (Bool-cases (not (has_value a.active_fault) && a.controller_failure_pending)) [
      | inl due ↦ rw due (raise_fault-Coherent FaultCode.control_loop_failure now a v.0 v.1)
      | inr none_due ↦ rw none_due v.0
    ]
