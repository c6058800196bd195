-- ===== src/App/Boot.antt =====
-- components/smoker_app/src/smoker_application.cpp: the constructor.
use smoker_firmware.Common.{
  List, [], ◌∷◌, ◌++◌, Bool, true, false, not, none, if◌then◌else◌, replicate,
}
use smoker_firmware.Common.Int.{pos}
use smoker_firmware.Core.Domain.{off, FoodProbeConfig, ProbeReading, SafetyLimits, EventType}
use smoker_firmware.App.Commands.{Ports, heater_write, controller_reset, clock_now, event_publish}
use smoker_firmware.App.State.{App, ProbeRuntime, command_capacity, probe_exists}
use smoker_firmware.App.Tick.{refresh_snapshot_view_cache}

abbrev pub new_probe : FoodProbeConfig → ProbeRuntime
new_probe c = record {
  default_configuration = c;
  session_target_temperature = c.target_temperature;
  session_enabled = c.enabled;
  session_alarm_enabled = c.alarm_enabled;
  current_temperature = none;
  reading_sampled = false;
  reading_initialized = false;
  connected = false;
  target_alarm_emitted = false;
  disconnected_alarm_emitted = false;
}

abbrev pub new_reading : FoodProbeConfig → ProbeReading
new_reading c = record { id = c.id; temperature = none }

-- The loop over the configuration: a repeated id makes it invalid.
unfoldable pub add_probes : List FoodProbeConfig → App → App
add_probes [] a = a
add_probes (c ∷ cs) a = add_probes cs (record a {
  configuration_valid = if probe_exists a.probes c.id then false else a.configuration_valid;
  probes = a.probes ++ (new_probe c ∷ []);
  probe_readings = a.probe_readings ++ (new_reading c ∷ []);
})

abbrev pub is_empty {ℓ} : {A : Type ℓ} → List A → Bool
is_empty [] = true
is_empty (x ∷ xs) = false

-- The members before the loop.
abbrev pub blank : SafetyLimits → Bool → App
blank limits valid = record {
  safety_limits = limits;
  session = none;
  chamber_temperature = none;
  heater_demand = off;
  active_fault = none;
  probes = [];
  probe_readings = [];
  alarms = [];
  probe_snapshot_views = [];
  active_alarm_snapshot = [];
  pending_events = [];
  command_results = [];
  next_alarm_id = 1;
  configuration_valid = valid;
  firmware_update_active = false;
  controller_active = false;
  controller_fault_resolved = false;
  controller_failure_pending = false;
  session_elapsed = pos 0;
  queue = record {
    commands = replicate command_capacity none;
    head = 0;
    tail = 0;
    count = 0;
    overflow_count = 0;
    reported_overflow_count = 0;
  };
  current_command_rejected = false;
  calls = [];
}

-- OFF is written before the first call of the controller.
unfoldable pub boot : Ports → SafetyLimits → List FoodProbeConfig → App
boot ports limits configuration =
    let a =
      refresh_snapshot_view_cache
        (add_probes configuration (blank limits (not (is_empty configuration)))) in
    let written = heater_write off ∷ [] in
    let ok = ports.reset written in
    let reset = controller_reset ok ∷ written in
    let now = ports.now reset in
    record a {
      controller_fault_resolved = ok;
      controller_failure_pending = not ok;
      calls =
          event_publish (record {
            type = EventType.device_booted;
            occurred_at = now;
            probe_id = none;
            alarm_id = none;
            fault_code = none;
          })
          ∷ clock_now now
          ∷ reset;
    }
