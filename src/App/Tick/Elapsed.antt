-- ===== src/App/Tick/Elapsed.antt =====
-- components/smoker_app/src/smoker_application.cpp: without a session a cycle ends with no elapsed time.
use smoker_firmware.Common.{false, arith, has_value, ◌≡◌}
use smoker_firmware.Common.Int.{pos}
use smoker_firmware.Core.Domain.{TimePoint}
use smoker_firmware.App.Commands.{Ports}
use smoker_firmware.App.State.{App}
use smoker_firmware.App.Session.{raise_fault, evaluate_safety}
use smoker_firmware.App.Tick.{
  write_heater, latch_controller_failure, retry_reset, request_demand, release_ineligible,
  update_session_elapsed, update_inputs, control_heater, publish_pending_events,
  refresh_snapshot_view_cache, tick,
}

abbrev pub IsTimed : App → Type 0
IsTimed a = has_value a.session ≡ false → a.session_elapsed ≡ pos 0

update_session_elapsed-IsTimed :
    (now : TimePoint) (a : App) → IsTimed (update_session_elapsed now a)
unfolding update_session_elapsed
update_session_elapsed-IsTimed now a h = ground arith

-- The same elapsed time, and a session where there was one.
record IsSameElapsed (a b : App) : Type 0 where
  same_elapsed : b.session_elapsed ≡ a.session_elapsed
  same_session : has_value b.session ≡ has_value a.session

IsSameElapsed-IsTimed : {a b : App} → IsSameElapsed a b → IsTimed a → IsTimed b
IsSameElapsed-IsTimed s t h = ground (arith, s.same_elapsed, s.same_session, h, t)

retry_reset-IsSameElapsed : (ports : Ports) (a : App) → IsSameElapsed a (retry_reset ports a)
unfolding retry_reset
retry_reset-IsSameElapsed ports a = ground arith

request_demand-IsSameElapsed :
    (ports : Ports) (a : App) → IsSameElapsed a (request_demand ports a).1
unfolding request_demand
request_demand-IsSameElapsed ports a = ground arith

evaluate_safety-IsSameElapsed :
    (now : TimePoint) (a : App) → IsSameElapsed a (evaluate_safety now a)
unfolding evaluate_safety raise_fault
evaluate_safety-IsSameElapsed now a = ground arith

release_ineligible-IsSameElapsed :
    (ports : Ports) (a : App) → IsSameElapsed a (release_ineligible ports a)
unfolding release_ineligible
release_ineligible-IsSameElapsed ports a = ground arith

latch_controller_failure-IsSameElapsed :
    (now : TimePoint) (a : App) → IsSameElapsed a (latch_controller_failure now a)
unfolding latch_controller_failure raise_fault
latch_controller_failure-IsSameElapsed now a = ground arith

control_heater-IsTimed :
    (ports : Ports) (now : TimePoint) (a : App) → IsTimed a → IsTimed (control_heater ports now a)
unfolding control_heater write_heater
control_heater-IsTimed ports now a t =
    let r = request_demand ports (retry_reset ports a) in
    let c = evaluate_safety now r.1 in
    let d = release_ineligible ports c in
    IsSameElapsed-IsTimed (latch_controller_failure-IsSameElapsed now d) (
      IsSameElapsed-IsTimed (release_ineligible-IsSameElapsed ports c) (
        IsSameElapsed-IsTimed (evaluate_safety-IsSameElapsed now r.1) (
          IsSameElapsed-IsTimed (request_demand-IsSameElapsed ports (retry_reset ports a))
            (IsSameElapsed-IsTimed (retry_reset-IsSameElapsed ports a) t))))

pub tick-IsTimed : (ports : Ports) (a : App) → IsTimed (tick ports a)
unfolding tick publish_pending_events refresh_snapshot_view_cache update_inputs
tick-IsTimed ports a =
    let now = ports.now a.calls in
    control_heater-IsTimed ports now _ (update_session_elapsed-IsTimed now _)
