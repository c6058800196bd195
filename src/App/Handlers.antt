-- ===== src/App/Handlers.antt =====
-- components/smoker_app/src/smoker_application.cpp: `process`, one handler for each command.
use smoker_firmware.Common.{
  ℕ, List, [], ◌∷◌, map, Bool, true, false, not, ◌&&◌, ◌||◌, Option, none, some, if◌then◌else◌,
  has_value, holds, map_option, ◌==◌, find_if, update_first, set,
}
use smoker_firmware.Core.Domain.{
  Temperature, temp_gt, TimePoint, Recipe, ProbeReading, Session, SessionStatus, is_running,
  is_fault, StopReason, Fault, Alarm, AlarmCode, EventType, new_timer,
}
use smoker_firmware.App.Commands.{Command}
use smoker_firmware.App.State.{
  App, ProbeRuntime, QueuedCommand, CommandQueue, session_running, current_session_status, is_probe,
  find_probe, fault_condition_is_resolved, recipe_is_valid, emit, emit_with, reject_command,
  resolve_probe_alarms, resolve_all_alarms,
}
use smoker_firmware.App.Queue.{slot}
use smoker_firmware.App.Session.{stop_running_session}

-- The defaults are copied; a probe disabled by default loses a sample taken before the Start.
abbrev pub reset_probe : ProbeRuntime → ProbeRuntime
reset_probe p =
    let c = p.default_configuration in
    let q : ProbeRuntime = record p {
      session_target_temperature = c.target_temperature;
      session_enabled = c.enabled;
      session_alarm_enabled = c.alarm_enabled;
    } in
    if c.enabled then q else record q { current_temperature = none; reading_sampled = false }

-- Reading `i` belongs to probe `i`.
abbrev pub reset_readings : List ProbeRuntime → List ProbeReading → List ProbeReading
reset_readings [] rs = rs
reset_readings (p ∷ ps) [] = []
reset_readings (p ∷ ps) (r ∷ rs) =
    (if p.default_configuration.enabled then r else record r { temperature = none })
    ∷ reset_readings ps rs

unfoldable pub reset_probe_session_configuration : App → App
reset_probe_session_configuration a = record a {
  probes = map reset_probe a.probes;
  probe_readings = reset_readings a.probes a.probe_readings;
}

abbrev pub forget_alarms : ProbeRuntime → ProbeRuntime
forget_alarms p = record p { target_alarm_emitted = false; disconnected_alarm_emitted = false }

-- `std::swap`: the recipe of the previous session goes to the slot of the command.
abbrev pub put_recipe : Option QueuedCommand → ℕ → Recipe → CommandQueue → CommandQueue
put_recipe none id old q = q
put_recipe (some c) id old q = record q {
  commands = set q.commands q.head (some (record c { command = Command.start_session id old }));
}

abbrev pub retire_recipe : Option Session → ℕ → CommandQueue → CommandQueue
retire_recipe none id q = q
retire_recipe (some s) id q = put_recipe (slot q q.head) id s.recipe_snapshot q

-- The guard of Start.
abbrev pub start_refused : App → Recipe → Bool
start_refused a recipe =
    has_value a.active_fault
    || a.firmware_update_active
    || session_running a.session
    || not (recipe_is_valid a recipe)

unfoldable pub process_start : ℕ → Recipe → TimePoint → App → App
unfolding resolve_all_alarms reset_probe_session_configuration emit_with reject_command
process_start id recipe now a =
    if start_refused a recipe
    then reject_command now a
    else (let b : App = reset_probe_session_configuration (
          resolve_all_alarms (record a {
            session = some (record {
              id = id;
              status = SessionStatus.running;
              recipe_snapshot = recipe;
              started_at = now;
              stopped_at = none;
              active_chamber_target = recipe.stage.chamber_target;
              timer = new_timer;
              stop_reason = StopReason.not_stopped;
            });
            queue = retire_recipe a.session id a.queue;
          })) in
        emit EventType.session_started now (record b { probes = map forget_alarms b.probes }))

unfoldable pub process_stop : TimePoint → App → App
unfolding reject_command stop_running_session
process_stop now a =
    if not (session_running a.session)
    then reject_command now a
    else stop_running_session StopReason.user now a

abbrev set_target : Option Temperature → Session → Session
set_target target s = record s { active_chamber_target = target }

unfoldable pub process_set_chamber_target : Option Temperature → TimePoint → App → App
unfolding reject_command emit_with
process_set_chamber_target target now a =
    if not (session_running a.session)
      || holds target (λ t. temp_gt t a.safety_limits.maximum_chamber_temperature)
    then reject_command now a
    else emit EventType.chamber_target_changed now
        (record a { session = map_option (set_target target) a.session })

-- A change of the first probe with this id.
abbrev pub change_probe : ℕ → (ProbeRuntime → ProbeRuntime) → App → App
change_probe id f a = record a { probes = update_first (is_probe id) f a.probes }

-- The common guard of the three probe commands.
abbrev pub probe_command_refused : ℕ → App → Bool
probe_command_refused id a =
    not (session_running a.session) || not (has_value (find_probe a.probes id))

unfoldable pub process_set_probe_target : ℕ → Option Temperature → TimePoint → App → App
unfolding reject_command resolve_probe_alarms emit_with
process_set_probe_target id target now a =
    if probe_command_refused id a
    then reject_command now a
    else emit_with EventType.probe_target_changed now (some id) none none (
        resolve_probe_alarms AlarmCode.probe_target_reached id (
          change_probe id
            (λ p. record p { session_target_temperature = target; target_alarm_emitted = false })
            a))

abbrev pub has_id : ℕ → ProbeReading → Bool
has_id id r = r.id == id

-- What disabling a probe does besides.
unfoldable pub silence_probe : ℕ → App → App
unfolding resolve_probe_alarms
silence_probe id a =
    let b : App = resolve_probe_alarms AlarmCode.probe_disconnected id (
      resolve_probe_alarms AlarmCode.probe_target_reached id
        (change_probe id (λ p. record p { current_temperature = none }) a)) in
    record b {
      probe_readings =
          update_first (has_id id) (λ r. record r { temperature = none }) b.probe_readings;
    }

unfoldable pub process_set_probe_enabled : ℕ → Bool → TimePoint → App → App
unfolding reject_command silence_probe
process_set_probe_enabled id enabled now a =
    if probe_command_refused id a
    then reject_command now a
    else (let b : App =
          change_probe id
            (λ p. record p {
              session_enabled = enabled;
              reading_sampled = false;
              reading_initialized = false;
              connected = false;
              target_alarm_emitted = false;
              disconnected_alarm_emitted = false;
            })
            a in
        if enabled then b else silence_probe id b)

unfoldable pub process_set_probe_alarm_enabled : ℕ → Bool → TimePoint → App → App
unfolding reject_command resolve_probe_alarms
process_set_probe_alarm_enabled id enabled now a =
    if probe_command_refused id a
    then reject_command now a
    else (let b : App =
          change_probe id (λ p. forget_alarms (record p { session_alarm_enabled = enabled })) a in
        if enabled
        then b
        else resolve_probe_alarms AlarmCode.probe_disconnected id
            (resolve_probe_alarms AlarmCode.probe_target_reached id b))

abbrev pub is_open_alarm : ℕ → Alarm → Bool
is_open_alarm id alarm = alarm.id == id && not alarm.resolved

acknowledge : Option Alarm → ℕ → TimePoint → App → App
unfolding reject_command emit_with
acknowledge none id now a = reject_command now a
acknowledge (some alarm) id now a =
    if alarm.acknowledged
    then reject_command now a
    else emit_with EventType.alarm_acknowledged now alarm.probe_id (some alarm.id) none (record a {
      alarms = update_first (is_open_alarm id) (λ m. record m { acknowledged = true }) a.alarms;
    })

unfoldable pub process_acknowledge_alarm : ℕ → TimePoint → App → App
unfolding acknowledge
process_acknowledge_alarm id now a = acknowledge (find_if (is_open_alarm id) a.alarms) id now a

-- A session that the fault ended becomes a stopped one.
abbrev pub leave_fault : Session → Session
leave_fault s =
    if is_fault s.status
    then record s { status = SessionStatus.stopped; stop_reason = StopReason.fault }
    else s

clear_fault : Option Fault → TimePoint → App → App
unfolding reject_command emit_with
clear_fault none now a = reject_command now a
clear_fault (some f) now a =
    if not (fault_condition_is_resolved a f.code)
    then reject_command now a
    else emit_with EventType.fault_acknowledged now none none (some f.code)
        (record a { active_fault = none; session = map_option leave_fault a.session })

unfoldable pub process_clear_resolved_fault : TimePoint → App → App
unfolding clear_fault
process_clear_resolved_fault now a = clear_fault a.active_fault now a

unfoldable pub process_prepare_firmware_update : TimePoint → App → App
unfolding reject_command current_session_status
process_prepare_firmware_update now a =
    if a.firmware_update_active || is_running (current_session_status a)
    then reject_command now a
    else record a { firmware_update_active = true }

unfoldable pub process_finish_firmware_update : TimePoint → App → App
unfolding reject_command
process_finish_firmware_update now a =
    if not a.firmware_update_active
    then reject_command now a
    else record a { firmware_update_active = false }

-- `std::visit`
unfoldable pub process : Command → TimePoint → App → App
process (Command.start_session id recipe) now a = process_start id recipe now a
process Command.stop_session now a = process_stop now a
process (Command.set_chamber_target target) now a = process_set_chamber_target target now a
process (Command.set_probe_target id target) now a = process_set_probe_target id target now a
process (Command.set_probe_enabled id enabled) now a = process_set_probe_enabled id enabled now a
process (Command.set_probe_alarm_enabled id enabled) now a =
    process_set_probe_alarm_enabled id enabled now a
process (Command.acknowledge_alarm id) now a = process_acknowledge_alarm id now a
process Command.clear_resolved_fault now a = process_clear_resolved_fault now a
process Command.prepare_firmware_update now a = process_prepare_firmware_update now a
process Command.finish_firmware_update now a = process_finish_firmware_update now a
