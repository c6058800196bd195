-- ===== src/Exchange.antt =====
-- components/smoker_app: snapshot_exchange.hpp and snapshot_exchange.cpp, called by one thread.
pub mod Steps
pub mod Copy
pub mod Readers
pub mod Lease
pub mod Read
pub mod Write
pub mod Safe
pub mod Calls
pub mod RoundTrip
use smoker_firmware.Common.{
  ℕ, zero, suc, ◌+◌, ◌-◌, ◌%◌, ◌^◌, List, [], ◌∷◌, Bool, true, false, not, ◌&&◌, Option, none, some,
  if◌then◌else◌, ◌==◌, leb, length, replicate, take, copy_to, put,
}
use smoker_firmware.Common.Int.{pos}
use smoker_firmware.Core.Domain.{
  Temperature, HeaterDemand, off, Duration, SessionStatus, StopReason, TimerRuntimeState, new_timer,
  Alarm, Fault,
}
use smoker_firmware.App.Commands.{CommandResult, command_result_capacity}
use smoker_firmware.App.State.{ProbeSnapshot, u32}
use smoker_firmware.App.Snapshot.{SnapshotView}

abbrev pub slot_count : ℕ
slot_count = 3

abbrev pub no_slot : ℕ
no_slot = slot_count

-- The vectors have their capacity as length; the counts say how much of them is in use.
pub record Slot : Type 0 where
  pub session_status : SessionStatus
  pub session_id : Option ℕ
  pub session_elapsed : Duration
  pub stop_reason : StopReason
  pub chamber_temperature : Option Temperature
  pub chamber_target : Option Temperature
  pub heater_demand : HeaterDemand
  pub timer_configured : Bool
  pub timer : TimerRuntimeState
  pub probes : List ProbeSnapshot
  pub probe_count : ℕ
  pub alarms : List Alarm
  pub alarm_count : ℕ
  pub active_fault : Option Fault
  pub firmware_update_active : Bool
  pub maximum_chamber_temperature : Option Temperature
  pub command_queue_overflow_count : ℕ
  pub command_results : List CommandResult
  pub command_result_count : ℕ

-- The two arrays are functions of the index; counts are `size_t` of 32 bits.
pub record Exchange : Type 0 where
  pub slots : ℕ → Slot
  pub readers : ℕ → ℕ
  pub published_index : ℕ
  pub dropped_publish_count : ℕ

-- The constructor, where `probe` and `alarm` are what the vectors are filled with.
unfoldable pub new_slot : ProbeSnapshot → Alarm → ℕ → ℕ → Slot
new_slot probe alarm probe_capacity alarm_capacity = record {
  session_status = SessionStatus.idle;
  session_id = none;
  session_elapsed = pos 0;
  stop_reason = StopReason.not_stopped;
  chamber_temperature = none;
  chamber_target = none;
  heater_demand = off;
  timer_configured = false;
  timer = new_timer;
  probes = replicate probe_capacity probe;
  probe_count = 0;
  alarms = replicate alarm_capacity alarm;
  alarm_count = 0;
  active_fault = none;
  firmware_update_active = false;
  maximum_chamber_temperature = none;
  command_queue_overflow_count = 0;
  command_results =
      replicate command_result_capacity (record { correlation_id = 0; semantic_accepted = false });
  command_result_count = 0;
}

abbrev pub new_exchange : Slot → Exchange
new_exchange blank = record {
  slots = λ _. blank;
  readers = λ _. 0;
  published_index = no_slot;
  dropped_publish_count = 0;
}

-- The assignments to a slot.
unfoldable pub write_slot : SnapshotView → Slot → Slot
write_slot v slot = record {
  session_status = v.session_status;
  session_id = v.session_id;
  session_elapsed = v.session_elapsed;
  stop_reason = v.stop_reason;
  chamber_temperature = v.chamber_temperature;
  chamber_target = v.chamber_target;
  heater_demand = v.heater_demand;
  timer_configured = v.timer_configured;
  timer = v.timer;
  probes = copy_to v.probes slot.probes;
  probe_count = length v.probes;
  alarms = copy_to v.active_alarms slot.alarms;
  alarm_count = length v.active_alarms;
  active_fault = v.active_fault;
  firmware_update_active = v.firmware_update_active;
  maximum_chamber_temperature = v.maximum_chamber_temperature;
  command_queue_overflow_count = v.command_queue_overflow_count;
  command_results = copy_to v.command_results slot.command_results;
  command_result_count = length v.command_results;
}

unfoldable pub view_of : Slot → SnapshotView
view_of slot = record {
  session_status = slot.session_status;
  session_id = slot.session_id;
  session_elapsed = slot.session_elapsed;
  stop_reason = slot.stop_reason;
  chamber_temperature = slot.chamber_temperature;
  chamber_target = slot.chamber_target;
  heater_demand = slot.heater_demand;
  timer_configured = slot.timer_configured;
  timer = slot.timer;
  probes = take slot.probe_count slot.probes;
  active_alarms = take slot.alarm_count slot.alarms;
  active_fault = slot.active_fault;
  firmware_update_active = slot.firmware_update_active;
  maximum_chamber_temperature = slot.maximum_chamber_temperature;
  command_queue_overflow_count = slot.command_queue_overflow_count;
  command_results = take slot.command_result_count slot.command_results;
}

-- The first test of `publish`, negated: the snapshot is within the capacities.
abbrev pub fits : SnapshotView → Exchange → Bool
fits v e =
    leb (length v.probes) (length (e.slots 0).probes)
    && (leb (length v.active_alarms) (length (e.slots 0).alarms)
        && leb (length v.command_results) command_result_capacity)

abbrev pub drop_publish : Exchange → Exchange
drop_publish e = record e { dropped_publish_count = u32 (e.dropped_publish_count + 1) }

-- The test of the loop over the slots.
abbrev pub is_free : Exchange → ℕ → Bool
is_free e i = not (i == e.published_index) && (e.readers i == 0)

abbrev pub first_free : List ℕ → Exchange → ℕ
first_free [] e = no_slot
first_free (i ∷ is) e = if is_free e i then i else first_free is e

unfoldable pub publish : SnapshotView → Exchange → Bool × Exchange
unfolding write_slot
publish v e =
    if fits v e
    then (let d = first_free (0 ∷ 1 ∷ 2 ∷ []) e in
        if d == no_slot then (false, drop_publish e) else (
          true,
          record e { slots = put d (write_slot v (e.slots d)) e.slots; published_index = d },
        ))
    else (false, drop_publish e)

abbrev pub enter : ℕ → Exchange → Exchange
enter i e = record e { readers = put i (u32 (e.readers i + 1)) e.readers }

-- `fetch_sub` wraps.
abbrev pub leave : ℕ → Exchange → Exchange
leave i e = record e { readers = put i (u32 (e.readers i + 2 ^ 32 - 1)) e.readers }

-- With no call in between, the second load of the published index sees what the first one saw, so
-- the loop has one round. The answer is the index of the lease.
unfoldable pub acquire : Exchange → Option ℕ × Exchange
acquire e =
    if e.published_index == no_slot
    then (none, e)
    else (some e.published_index, enter e.published_index e)
