-- ===== src/App/Probes.antt =====
-- components/smoker_app/src/smoker_application.cpp: `acquire_raw_inputs` and
-- `evaluate_probe_states`.
use smoker_firmware.Common.{
  List, [], ◌∷◌, Bool, true, false, not, ◌&&◌, none, some, if◌then◌else◌, has_value, holds,
}
use smoker_firmware.Core.Domain.{temp_ge, TimePoint, ProbeReading, AlarmCode, EventType}
use smoker_firmware.App.Commands.{Ports, PortCall, chamber_read, food_read}
use smoker_firmware.App.State.{
  App, ProbeRuntime, session_running, emit_with, raise_alarm, resolve_probe_alarms,
}

module _ (ports : Ports) where
  -- One probe: what it becomes, and the calls made so far.
  unfoldable pub sample : ProbeRuntime → List PortCall → ProbeRuntime × List PortCall
  sample p calls =
      let id = p.default_configuration.id in
      let t = ports.read_food calls id in
      if p.session_enabled
      then (record p { current_temperature = t; reading_sampled = true }, food_read id t ∷ calls)
      else (record p { current_temperature = none; reading_sampled = false }, calls)

  unfoldable pub sample_all : List ProbeRuntime → List PortCall → List ProbeRuntime × List PortCall
  sample_all [] calls = ([], calls)
  sample_all (p ∷ ps) calls =
      let (q, calls') = sample p calls in
      let (qs, calls'') = sample_all ps calls' in (q ∷ qs, calls'')

-- `probe_readings_[index].temperature = probe.current_temperature`
unfoldable pub copy_readings : List ProbeRuntime → List ProbeReading → List ProbeReading
copy_readings [] rs = rs
copy_readings (p ∷ ps) [] = []
copy_readings (p ∷ ps) (r ∷ rs) =
    record r { temperature = p.current_temperature } ∷ copy_readings ps rs

unfoldable pub acquire_raw_inputs : Ports → App → App
acquire_raw_inputs ports a =
    let t = ports.read_chamber a.calls in
    let (probes, calls) = sample_all ports a.probes (chamber_read t ∷ a.calls) in
    record a {
      chamber_temperature = t;
      probes = probes;
      probe_readings = copy_readings probes a.probe_readings;
      calls = calls;
    }

-- The event of a first reading or of a changed connection.
unfoldable pub note_connection : ProbeRuntime → TimePoint → App → App
unfolding emit_with
note_connection p now a =
    let up = has_value p.current_temperature in
    let id = some p.default_configuration.id in
    if not p.reading_initialized
    then emit_with (if up then EventType.probe_connected else EventType.probe_disconnected) now id
        none none a
    else if (if up then p.connected else not p.connected)
    then a
    else emit_with (if up then EventType.probe_reconnected else EventType.probe_disconnected) now id
        none none a

-- The probe after that, with its latch for disconnection released while connected.
unfoldable pub connect : ProbeRuntime → ProbeRuntime
connect p =
    let up = has_value p.current_temperature in
    record p {
      reading_initialized = true;
      connected = up;
      disconnected_alarm_emitted = if up then false else p.disconnected_alarm_emitted;
    }

unfoldable pub disconnect_alarm_due : ProbeRuntime → Bool
disconnect_alarm_due p =
    not (has_value p.current_temperature)
    && p.session_alarm_enabled
    && not p.disconnected_alarm_emitted

unfoldable pub target_alarm_due : ProbeRuntime → Bool
target_alarm_due p =
    has_value p.current_temperature
    && p.session_alarm_enabled
    && has_value p.session_target_temperature
    && not p.target_alarm_emitted
    && holds p.current_temperature (λ t. holds p.session_target_temperature (λ g. temp_ge t g))

-- The alarms of a probe in a running session; both need the probe in a different connection.
unfoldable pub raise_probe_alarms : ProbeRuntime → TimePoint → App → ProbeRuntime × App
unfolding raise_alarm emit_with
raise_probe_alarms p now a =
    let id = some p.default_configuration.id in
    let (p', a') =
      if disconnect_alarm_due p
      then (
        record p { disconnected_alarm_emitted = true },
        raise_alarm AlarmCode.probe_disconnected id now a,
      )
      else (p, a) in
    if target_alarm_due p'
    then (
      record p' { target_alarm_emitted = true },
      emit_with EventType.probe_target_reached now id none none
          (raise_alarm AlarmCode.probe_target_reached id now a'),
    )
    else (p', a')

unfoldable pub evaluate_probe_state : ProbeRuntime → TimePoint → App → ProbeRuntime × App
evaluate_probe_state p now a =
    let b = note_connection p now a in
    let c : App =
      if has_value p.current_temperature
      then resolve_probe_alarms AlarmCode.probe_disconnected p.default_configuration.id b
      else b in
    if not (session_running a.session) then (connect p, c) else raise_probe_alarms (connect p) now c

unfoldable pub evaluate_one : ProbeRuntime → TimePoint → App → ProbeRuntime × App
evaluate_one p now a =
    if p.session_enabled && p.reading_sampled then evaluate_probe_state p now a else (p, a)

-- The loop over the probes, which takes the rest of the application along.
unfoldable pub evaluate_each : List ProbeRuntime → TimePoint → App → List ProbeRuntime × App
evaluate_each [] now a = ([], a)
evaluate_each (p ∷ ps) now a =
    let (q, b) = evaluate_one p now a in let (qs, c) = evaluate_each ps now b in (q ∷ qs, c)

unfoldable pub evaluate_probe_states : TimePoint → App → App
evaluate_probe_states now a =
    let (probes, b) = evaluate_each a.probes now a in record b { probes = probes }
