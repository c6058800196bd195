-- ===== src/History/Mailbox.antt =====
-- components/smoker_platform/src/history_support.cpp: `HistoryObservationMailbox`, one call at a time.
pub mod Sessions
pub mod Tracked
pub mod Order
use smoker_firmware.Common.{
  ℕ, ◌+◌, ◌-◌, ◌%◌, ◌^◌, List, [], ◌∷◌, ◌++◌, map, map_option, Bool, true, false, not, ◌&&◌, ◌||◌,
  Option, none, some, if◌then◌else◌, ◌==◌, ltb, leb, has_value, opt_eq, set, replicate,
}
use smoker_firmware.Common.Int.{ℤ, pos, leb_ℤ, ◌-ℤ◌}
use smoker_firmware.Common.Float32
use smoker_firmware.Common.Window.{slot_of}
use smoker_firmware.Core.Domain.{
  Temperature, Duration, SessionStatus, Fault, FaultCode, Alarm, TimerRuntimeState, new_timer,
}
use smoker_firmware.App.State.{ProbeSnapshot}
use smoker_firmware.App.Snapshot.{SnapshotView}
use smoker_firmware.Mailbox.{add_word, sub_word}
use smoker_firmware.History.{ObservationKind, HistoryProbe, HistoryAlarm, Observation}
use smoker_firmware.History.Numbers.{
  status_number, fault_number, role_number, alarm_number, value_or,
}
use smoker_firmware.History.Policy.{is_lifecycle}
use smoker_firmware.History.Compare.{
  probe_of, history_alarm_of, fault_code_of, bool_eq, status_eq, temperature_eq, fault_eq,
  probes_equal, alarms_equal,
}

abbrev pub history_mailbox_capacity : ℕ
history_mailbox_capacity = 16

abbrev pub history_periodic_sample_interval : Duration
history_periodic_sample_interval = pos 60000

-- The sequences and the count of drops are words of 32 bits that wrap. `admitted` and `delivered` list
-- what `push` has put in and what `try_pop` has taken out, oldest first.
pub record ObservationMailbox : Type 0 where
  pub slots : List (Option Observation)
  pub previous_probes : List HistoryProbe
  pub previous_alarms : List HistoryAlarm
  pub previous_session_id : Option ℕ
  pub previous_status : SessionStatus
  pub previous_target : Option Temperature
  pub previous_timer : TimerRuntimeState
  pub previous_fault : Option FaultCode
  pub last_sample_elapsed : Duration
  pub initialized : Bool
  pub write_sequence : ℕ
  pub read_sequence : ℕ
  pub dropped_count : ℕ
  pub admitted : List Observation
  pub delivered : List (Option Observation)

abbrev pub new_observation_mailbox : ObservationMailbox
new_observation_mailbox = record {
  slots = replicate history_mailbox_capacity none;
  previous_probes = [];
  previous_alarms = [];
  previous_session_id = none;
  previous_status = SessionStatus.idle;
  previous_target = none;
  previous_timer = new_timer;
  previous_fault = none;
  last_sample_elapsed = pos 0;
  initialized = false;
  write_sequence = 0;
  read_sequence = 0;
  dropped_count = 0;
  admitted = [];
  delivered = [];
}

unfoldable pub changed : SnapshotView → ObservationMailbox → Bool
unfolding temperature_eq probes_equal
changed s m =
    not (status_eq s.session_status m.previous_status)
    || (not (opt_eq s.session_id m.previous_session_id)
        || (not (temperature_eq s.chamber_target m.previous_target)
            || (not (bool_eq s.timer.started m.previous_timer.started)
                || (not (bool_eq s.timer.completed m.previous_timer.completed)
                    || (not (fault_eq (fault_code_of s.active_fault) m.previous_fault)
                        || (not (probes_equal s.probes m.previous_probes)
                            || not (alarms_equal s.active_alarms m.previous_alarms)))))))

unfoldable pub remember : SnapshotView → ObservationMailbox → ObservationMailbox
remember s m = record m {
  previous_session_id = s.session_id;
  previous_status = s.session_status;
  previous_target = s.chamber_target;
  previous_timer = s.timer;
  previous_fault = fault_code_of s.active_fault;
  previous_probes = map probe_of s.probes;
  previous_alarms = map history_alarm_of s.active_alarms;
}

unfoldable pub observation_of : ObservationKind → SnapshotView → Option ℤ → Observation
observation_of kind s now = record {
  kind = kind;
  history_id = 0;
  sequence = 0;
  application_session_id = value_or 0 s.session_id;
  session_status = s.session_status;
  stop_reason = s.stop_reason;
  session_elapsed = s.session_elapsed;
  unix_utc_seconds = now;
  chamber_temperature = s.chamber_temperature;
  chamber_target = s.chamber_target;
  heater_demand = s.heater_demand;
  timer = s.timer;
  probes = map probe_of s.probes;
  alarms = map history_alarm_of s.active_alarms;
  fault = fault_code_of s.active_fault;
}

abbrev pub pending_observations : ObservationMailbox → ℕ
pending_observations m = sub_word m.write_sequence m.read_sequence

-- An ordinary observation does not take the last slot.
abbrev pub observation_limit : ObservationKind → ℕ
observation_limit kind =
    if is_lifecycle kind then history_mailbox_capacity else history_mailbox_capacity - 1

unfoldable pub push_observation :
    ObservationKind → SnapshotView → Option ℤ → ObservationMailbox → Bool × ObservationMailbox
unfolding observation_of
push_observation kind s now m =
    if leb (observation_limit kind) (pending_observations m)
    then (false, record m { dropped_count = add_word m.dropped_count 1 })
    else (
      true,
      record m {
        slots =
            set m.slots (m.write_sequence % history_mailbox_capacity)
              (some (observation_of kind s now));
        write_sequence = add_word m.write_sequence 1;
        admitted = m.admitted ++ (observation_of kind s now ∷ []);
      },
    )

abbrev pub has_capacity : ℕ → ObservationMailbox → Bool
has_capacity count m =
    leb count history_mailbox_capacity
    && leb (pending_observations m) (history_mailbox_capacity - count)

unfoldable pub try_pop_observation :
    ObservationMailbox → Option (Option Observation) × ObservationMailbox
try_pop_observation m =
    let taken = slot_of m.slots (m.read_sequence % history_mailbox_capacity) in
    if m.read_sequence == m.write_sequence then (none, m) else (
      some taken,
      record m {
        read_sequence = add_word m.read_sequence 1;
        delivered = m.delivered ++ (taken ∷ []);
      },
    )

-- `running`, `starting`, `ending` and `terminal_session_first_seen` of `observe`.
abbrev pub is_session_running : SnapshotView → Bool
is_session_running s = status_eq s.session_status SessionStatus.running && has_value s.session_id

abbrev pub is_starting : SnapshotView → ObservationMailbox → Bool
is_starting s m =
    is_session_running s
    && (not m.initialized
        || (not (status_eq m.previous_status SessionStatus.running)
            || not (opt_eq m.previous_session_id s.session_id)))

abbrev pub is_ending : SnapshotView → ObservationMailbox → Bool
is_ending s m =
    m.initialized
    && (status_eq m.previous_status SessionStatus.running
        && (opt_eq m.previous_session_id s.session_id && not (is_session_running s)))

abbrev pub is_terminal_first_seen : SnapshotView → ObservationMailbox → Bool
is_terminal_first_seen s m =
    has_value s.session_id
    && ((status_eq s.session_status SessionStatus.stopped
          || status_eq s.session_status SessionStatus.fault)
        && (not m.initialized || not (opt_eq m.previous_session_id s.session_id)))

abbrev pub is_periodic_due : SnapshotView → ObservationMailbox → Bool
unfolding ◌-ℤ◌
is_periodic_due s m =
    leb_ℤ m.last_sample_elapsed s.session_elapsed
    && leb_ℤ history_periodic_sample_interval (s.session_elapsed -ℤ m.last_sample_elapsed)

-- The end of `observe`, which a refused Start or End does not reach.
abbrev pub settled : SnapshotView → ObservationMailbox → ObservationMailbox
unfolding remember
settled s m = record (remember s m) { initialized = true }

abbrev pub after_start : SnapshotView → Bool × ObservationMailbox → ObservationMailbox
unfolding settled
after_start s (false, m) = m
after_start s (true, m) = settled s (record m { last_sample_elapsed = s.session_elapsed })

abbrev pub after_end : SnapshotView → Bool × ObservationMailbox → ObservationMailbox
unfolding settled
after_end s (false, m) = m
after_end s (true, m) = settled s m

abbrev pub after_first : SnapshotView → Option ℤ → Bool × ObservationMailbox → ObservationMailbox
unfolding after_end push_observation
after_first s now (false, m) = m
after_first s now (true, m) = after_end s (push_observation ObservationKind.end s now m)

unfoldable pub observe_terminal : SnapshotView → Option ℤ → ObservationMailbox → ObservationMailbox
unfolding after_first push_observation
observe_terminal s now m =
    if not (has_capacity 2 m)
    then record m { dropped_count = add_word m.dropped_count 1 }
    else after_first s now (push_observation ObservationKind.start s now m)

abbrev pub after_sample : SnapshotView → Bool × ObservationMailbox → ObservationMailbox
after_sample s (false, m) = m
after_sample s (true, m) = record m { last_sample_elapsed = s.session_elapsed }

abbrev pub with_change : SnapshotView → Option ℤ → ObservationMailbox → ObservationMailbox
unfolding changed push_observation
with_change s now m =
    if m.initialized && changed s m then (push_observation ObservationKind.change s now m).1 else m

abbrev pub with_sample : Bool → SnapshotView → Option ℤ → ObservationMailbox → ObservationMailbox
unfolding push_observation
with_sample due s now m =
    if due then after_sample s (push_observation ObservationKind.sample s now m) else m

unfoldable pub observe_running : SnapshotView → Option ℤ → ObservationMailbox → ObservationMailbox
unfolding settled with_sample with_change is_periodic_due
observe_running s now m = settled s (with_sample (is_periodic_due s m) s now (with_change s now m))

unfoldable pub observe : SnapshotView → Option ℤ → ObservationMailbox → ObservationMailbox
unfolding after_start after_end observe_terminal observe_running settled push_observation
observe s now m =
    if is_starting s m
    then after_start s (push_observation ObservationKind.start s now m)
    else if is_ending s m
    then after_end s (push_observation ObservationKind.end s now m)
    else if is_terminal_first_seen s m
    then observe_terminal s now m
    else if is_session_running s
    then observe_running s now m
    else settled s m
