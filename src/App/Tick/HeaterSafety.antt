-- ===== src/App/Tick/HeaterSafety.antt =====
-- components/smoker_app/src/smoker_application.cpp: when `tick` may command heat.
use smoker_firmware.Common.{
  true, false, not, none, arith, has_value, holds, ◌∷◌, ap, ◌≡◌, ◌≢◌, refl, sym, ◌∙◌, subst,
}
use smoker_firmware.Core.Domain.{temp_gt, HeaterDemand, off, TimePoint}
use smoker_firmware.Core.Safety.{apply_safety_gate, evaluate_chamber_safety}
use smoker_firmware.App.Commands.{Ports}
use smoker_firmware.App.State.{App, current_session_status, controller_is_eligible, session_running}
use smoker_firmware.App.Session.{evaluate_safety}
use smoker_firmware.App.Tick.Writes.{heater_writes, tick-writes}
use smoker_firmware.App.Tick.{
  write_heater, latch_controller_failure, retry_reset, request_demand, release_ineligible,
  control_heater, update_inputs, publish_pending_events, refresh_snapshot_view_cache, tick,
}

-- The session runs with a target, the chamber is read and does not exceed the limit, and neither a
-- fault, nor an invalid configuration, nor a firmware update forbids heat.
pub record IsPermitted (a : App) : Type 0 where
  pub configured : a.configuration_valid ≡ true
  pub no_fault : a.active_fault ≡ none
  pub no_update : a.firmware_update_active ≡ false
  pub running : session_running a.session ≡ true
  pub target : holds a.session (λ s. has_value s.active_chamber_target) ≡ true
  pub in_limit :
      holds a.chamber_temperature (λ t. not (temp_gt t a.safety_limits.maximum_chamber_temperature))
      ≡ true

-- A request other than OFF was made by an eligible controller.
request_demand_on :
    (ports : Ports) (a : App)
    → (request_demand ports a).0 ≢ off
    → let b = (request_demand ports a).1 in
      (b.configuration_valid ≡ true)
      × (b.firmware_update_active ≡ false)
      × (session_running b.session ≡ true)
      × (b.active_fault ≡ none)
      × (holds b.session (λ s. has_value s.active_chamber_target) ≡ true)
unfolding request_demand controller_is_eligible
request_demand_on ports a h = ground arith

-- Without a fault afterwards, the evaluation changed nothing and found the chamber in its limits.
evaluate_safety_clear :
    (now : TimePoint) (a : App)
    → (evaluate_safety now a).active_fault ≡ none
    → (evaluate_safety now a ≡ a)
      × (a.configuration_valid ≡ true)
      × (holds a.chamber_temperature
            (λ t. not (temp_gt t a.safety_limits.maximum_chamber_temperature))
          ≡ true)
unfolding evaluate_safety evaluate_chamber_safety
evaluate_safety_clear now a h = ground arith

record IsSameSession (a b : App) : Type 0 where
  same_session : b.session ≡ a.session
  same_fault : b.active_fault ≡ a.active_fault
  same_configured : b.configuration_valid ≡ a.configuration_valid
  same_update : b.firmware_update_active ≡ a.firmware_update_active
  same_chamber : b.chamber_temperature ≡ a.chamber_temperature
  same_limits : b.safety_limits ≡ a.safety_limits

IsSameSession-IsPermitted : {a b : App} → IsSameSession a b → IsPermitted a → IsPermitted b
IsSameSession-IsPermitted s p = ground arith

write_heater-IsSameSession :
    (requested : HeaterDemand) (a : App) → IsSameSession a (write_heater requested a)
unfolding write_heater
write_heater-IsSameSession requested a = ground arith

release_ineligible-IsSameSession :
    (ports : Ports) (a : App) → IsSameSession a (release_ineligible ports a)
unfolding release_ineligible
release_ineligible-IsSameSession ports a = ground arith

latch_controller_failure_clear :
    (now : TimePoint) (a : App)
    → (latch_controller_failure now a).active_fault ≡ none
    → IsSameSession a (latch_controller_failure now a)
unfolding latch_controller_failure
latch_controller_failure_clear now a h = ground arith

write_heater_on :
    (requested : HeaterDemand) (a : App)
    → (write_heater requested a).heater_demand ≢ off
    → (requested ≢ off) × (session_running a.session ≡ true) × (a.active_fault ≡ none)
unfolding write_heater apply_safety_gate current_session_status
write_heater_on requested a h = ground arith

control_heater-IsPermitted :
    (ports : Ports) (now : TimePoint) (a : App)
    → (control_heater ports now a).heater_demand ≢ off
    → IsPermitted (control_heater ports now a)
unfolding control_heater
control_heater-IsPermitted ports now a h =
    let r = request_demand ports (retry_reset ports a) in
    let c = evaluate_safety now r.1 in
    let d = release_ineligible ports c in
    let e = latch_controller_failure now d in
    let on = write_heater_on r.0 e h in
    let latched = latch_controller_failure_clear now d on.2 in
    let released = release_ineligible-IsSameSession ports c in
    let safe =
      evaluate_safety_clear now r.1 (sym released.same_fault ∙ sym latched.same_fault ∙ on.2) in
    let asked = request_demand_on ports (retry_reset ports a) on.0 in
    let permitted : IsPermitted r.1 = record {
      configured = safe.1;
      no_fault = asked.3;
      no_update = asked.1;
      running = asked.2;
      target = asked.4;
      in_limit = safe.2;
    } in
    IsSameSession-IsPermitted (write_heater-IsSameSession r.0 e) (
      IsSameSession-IsPermitted latched
        (IsSameSession-IsPermitted released (subst IsPermitted (sym safe.0) permitted)))

tick_heats-state :
    (ports : Ports) (a : App) → (tick ports a).heater_demand ≢ off → IsPermitted (tick ports a)
unfolding tick publish_pending_events refresh_snapshot_view_cache
tick_heats-state ports a h =
    let now = ports.now a.calls in
    IsSameSession-IsPermitted
      (record {
        same_session = refl;
        same_fault = refl;
        same_configured = refl;
        same_update = refl;
        same_chamber = refl;
        same_limits = refl;
      })
      (control_heater-IsPermitted ports now (update_inputs ports now _) h)

-- The heater port is given heat only in a permitted state: whatever the ports answer and whatever
-- the state was, if what a cycle writes to the heater port is anything but one OFF, then it is one
-- write, of the demand that the cycle ends with, and the cycle ends with a valid configuration, no
-- fault, no firmware update, a running session with a target and a chamber reading that does not
-- exceed the limit.
pub tick_heats-IsPermitted :
    (ports : Ports) (a : App)
    → heater_writes (tick ports a).calls ≢ off ∷ heater_writes a.calls
    → (heater_writes (tick ports a).calls ≡ (tick ports a).heater_demand ∷ heater_writes a.calls)
      × IsPermitted (tick ports a)
tick_heats-IsPermitted ports a h = (
  tick-writes ports a,
  tick_heats-state ports a (λ e. h (tick-writes ports a ∙ ap (λ d. d ∷ heater_writes a.calls) e)),
)
