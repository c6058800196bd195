-- ===== src/Tests/Exchange.antt =====
-- The snapshot exchange on concrete calls.
use smoker_firmware.Common.{
  length, ◌≤◌, ◌≢◌, ℕ, ◌≡◌, ◌<◌, refl, [], ◌∷◌, true, false, none, some, arith, ◌↔◌,
}
use smoker_firmware.Common.Int.{pos}
use smoker_firmware.Core.Domain.{
  ProbeRole, Alarm, AlarmCode, SessionStatus, StopReason, off, new_timer,
}
use smoker_firmware.App.State.{ProbeSnapshot}
use smoker_firmware.App.Snapshot.{SnapshotView}
use smoker_firmware.Exchange.{Slot, new_slot, new_exchange, publish, acquire, view_of, write_slot}
use smoker_firmware.Exchange.Steps.{Writer, System, start, IsSized, Step, begin, Reach, here}
use smoker_firmware.Exchange.Lease.{IsExchange, leases}
use smoker_firmware.Exchange.Safe.{Reach-IsExchange, Step_keeps_leased}
use smoker_firmware.Exchange.Calls.{after_publish, after_acquire, publish-Reach, acquire-Reach}
use smoker_firmware.Exchange.RoundTrip.{publish-accepts, publish-acquire-view_of}

abbrev probe : ProbeSnapshot
probe = record {
  id = 1;
  name = "Brisket";
  role = ProbeRole.meat;
  current_temperature = none;
  target_temperature = none;
  enabled = true;
  alarm_enabled = true;
}

abbrev alarm : Alarm
alarm = record {
  id = 3;
  code = AlarmCode.probe_disconnected;
  probe_id = some 1;
  occurred_at = pos 500;
  acknowledged = false;
  resolved = false;
}

-- Room for two probes and one alarm.
abbrev blank : Slot
unfolding new_slot
blank = new_slot probe alarm 2 1

abbrev quiet : SnapshotView
quiet = record {
  session_status = SessionStatus.idle;
  session_id = none;
  session_elapsed = pos 0;
  stop_reason = StopReason.not_stopped;
  chamber_temperature = none;
  chamber_target = none;
  heater_demand = off;
  timer_configured = false;
  timer = new_timer;
  probes = probe ∷ [];
  active_alarms = alarm ∷ [];
  active_fault = none;
  firmware_update_active = false;
  maximum_chamber_temperature = none;
  command_queue_overflow_count = 0;
  command_results = [];
}

blank-IsSized : IsSized 2 1 blank
unfolding blank
blank-IsSized = (refl, (refl, refl))

-- One reader, one snapshot, one lease.
abbrev published_once : System
published_once = after_publish quiet (start blank 1) (publish quiet (new_exchange blank))

published_once-Reach : Reach 2 1 published_once
published_once-Reach =
    publish-Reach 2 1 (start blank 1) quiet (here 1 blank-IsSized (omega arith)) refl

abbrev leased_once : System
leased_once = after_acquire published_once [] [] (acquire published_once.exchange)

leased_once-Reach : Reach 2 1 leased_once
leased_once-Reach = acquire-Reach 2 1 published_once [] [] published_once-Reach refl

Reach-IsExchange_example : IsExchange 2 1 leased_once
Reach-IsExchange_example = Reach-IsExchange leased_once-Reach

abbrev second_begun : System
second_begun = record leased_once {
  writer = Writer.scanning quiet leased_once.exchange.published_index 0;
}

begin_again : Step leased_once second_begun
unfolding publish acquire blank write_slot
begin_again = begin quiet refl refl

one_lease : 0 < leases 0 leased_once
unfolding publish acquire blank write_slot
one_lease = omega arith

Step_keeps_leased_example : second_begun.exchange.slots 0 ≡ leased_once.exchange.slots 0
Step_keeps_leased_example =
    Step_keeps_leased leased_once-Reach begin_again 0 (omega arith) one_lease

publish-accepts_example : ((publish quiet (new_exchange blank)).0 ≡ true) ↔ (
    (length quiet.probes ≤ length ((new_exchange blank).slots 0).probes)
    × ((length quiet.active_alarms ≤ length ((new_exchange blank).slots 0).alarms)
        × ((length quiet.command_results ≤ 16)
            × ((i : ℕ) × (i < 3)
                × (i ≢ (new_exchange blank).published_index)
                × ((new_exchange blank).readers i ≡ 0)))))
publish-accepts_example = publish-accepts quiet (new_exchange blank)

accepted_once : (publish quiet (new_exchange blank)).0 ≡ true
unfolding publish blank write_slot
accepted_once = refl

publish-acquire-view_of_example :
    (i : ℕ) × (((acquire (publish quiet (new_exchange blank)).1).0 ≡ some i)
      × (view_of ((acquire (publish quiet (new_exchange blank)).1).1.slots i) ≡ quiet))
publish-acquire-view_of_example =
    publish-acquire-view_of quiet (new_exchange blank) 2 1 (λ _. blank-IsSized) accepted_once
