-- ===== src/App/Invariant.antt =====
-- components/smoker_app: what holds of the session, the fault and the update lock between two calls.
pub mod Handlers
pub mod Synced
pub mod Cycle
pub mod Tick
use smoker_firmware.Common.{
  ℕ, List, [], ◌∷◌, Bool, true, false, not, ◌&&◌, ◌||◌, Option, none, some, arith, if◌then◌else◌,
  has_value, holds, ◌≡◌, ◌≢◌, refl, sym, subst,
}
use smoker_firmware.Core.Domain.{
  Temperature, temp_gt, TimePoint, Recipe, Session, is_running, is_fault, Fault, StageTimer,
  TimerRuntimeState, new_timer, SafetyLimits,
}
use smoker_firmware.Core.Timer.{is_valid_timer_configuration, freeze_stage_timer}
use smoker_firmware.Core.Timer.Laws.{IsConsistent}
use smoker_firmware.App.State.{App, session_running}

-- A session without a timer keeps the initial state; another has a valid, consistent one.
abbrev pub TimerFits : Option StageTimer → TimerRuntimeState → Type 0
TimerFits none t = t ≡ new_timer
TimerFits (some c) t = (is_valid_timer_configuration c ≡ true) × IsConsistent c t

abbrev pub SessionFits : Option Session → Type 0
SessionFits none = Unit {0}
SessionFits (some s) = TimerFits s.recipe_snapshot.stage.timer s.timer

abbrev pub session_faulted : Option Session → Bool
session_faulted none = false
session_faulted (some s) = is_fault s.status

-- The target exceeds the limit.
abbrev pub target_too_hot : SafetyLimits → Option Session → Bool
target_too_hot limits none = false
target_too_hot limits (some s) =
    holds s.active_chamber_target (λ t. temp_gt t limits.maximum_chamber_temperature)

-- No session runs under a fault or during a firmware update, a session in the fault state has its
-- fault still active, the target does not exceed the limit, and the timer fits its configuration.
pub record IsCoherent (limits : SafetyLimits) (session : Option Session) (active : Option Fault)
    (update : Bool) : Type 0 where
  pub fault_stops : has_value active ≡ true → session_running session ≡ false
  pub update_stops : update ≡ true → session_running session ≡ false
  pub fault_marked : session_faulted session ≡ true → has_value active ≡ true
  pub limited : target_too_hot limits session ≡ false
  pub timed : SessionFits session

abbrev pub Coherent : App → Type 0
Coherent a = IsCoherent a.safety_limits a.session a.active_fault a.firmware_update_active

-- The two states agree on what the invariant is about.
pub record IsSame (a b : App) : Type 0 where
  pub limits : b.safety_limits ≡ a.safety_limits
  pub session : b.session ≡ a.session
  pub active : b.active_fault ≡ a.active_fault
  pub update : b.firmware_update_active ≡ a.firmware_update_active

pub IsSame-Coherent : {a b : App} → IsSame a b → Coherent a → Coherent b
IsSame-Coherent {a} {b} s c =
    subst (λ x. IsCoherent b.safety_limits b.session b.active_fault x) (sym s.update)
      (subst (λ x. IsCoherent b.safety_limits b.session x a.firmware_update_active) (sym s.active)
        (subst (λ x. IsCoherent b.safety_limits x a.active_fault a.firmware_update_active)
          (sym s.session)
          (subst (λ x. IsCoherent x a.session a.active_fault a.firmware_update_active)
            (sym s.limits) c)))
