-- ===== src/Tests/Transport.antt =====
-- The draining of the two mailboxes and the ids on concrete inputs.
use smoker_firmware.Common.{
  [], ◌∷◌, none, ℕ, ◌+◌, ◌≡◌, ◌≢◌, ◌<◌, ◌^◌, refl, Bool, true, Option, some, ◌==◌, arith,
}
use smoker_firmware.App.Commands.{Command}
use smoker_firmware.App.State.{App}
use smoker_firmware.App.Queue.{submit}
use smoker_firmware.App.Boot.{boot, add_probes}
use smoker_firmware.App.Tick.{refresh_snapshot_view_cache}
use smoker_firmware.Tests.Demo.{ports, limits, configuration}
use smoker_firmware.Mailbox.{TransportCommand, Mailbox, new_mailbox, push, try_pop, store}
use smoker_firmware.Transport.{
  drain_mailboxes, begin_drain, drain_loop, round, take_next, pop, deliver, next_valid,
  internal_ota_correlation_id,
}
use smoker_firmware.Transport.Bounds.{taken}
use smoker_firmware.Transport.Admission.{drained_app, drain-submit-submit}
use smoker_firmware.Transport.Ids.{next_valid-some}

abbrev acknowledge : TransportCommand
acknowledge = record {
  command = Command.acknowledge_alarm 3;
  correlation_id = 40;
  transport_generation = 2;
}

abbrev filled : Mailbox
filled = (push acknowledge (push acknowledge new_mailbox).1).1

abbrev booted : App
booted = boot ports limits configuration

-- Blynk commands of generation 2 are stale.
abbrev newer : Option (ℕ → Bool)
newer = some (λ g. g == 3)

booted_queue : booted.queue.count ≡ 0
unfolding boot refresh_snapshot_view_cache add_probes
booted_queue = refl

drain-submit-submit_example :
    ((submit Command.prepare_firmware_update 8 (drained_app newer filled filled true booted)).1
      ≡ true)
    × ((submit Command.finish_firmware_update 9
          (submit Command.prepare_firmware_update 8
            (drained_app newer filled filled true booted)).0).1
        ≡ true)
drain-submit-submit_example =
    drain-submit-submit newer filled filled true booted Command.prepare_firmware_update
      Command.finish_firmware_update 8 9 booted_queue

-- The two commands over HTTP are submitted, the two over Blynk are discarded, one after the other.
drained_counts :
    (taken (drain_mailboxes (some (λ (n : ℕ) c id. n + 1)) newer (begin_drain filled filled true 0))
      ≡ 4)
    × ((drain_mailboxes
          (some (λ (n : ℕ) c id. n + 1))
          newer
          (begin_drain filled filled true 0)).context
        ≡ 2)
unfolding drain_mailboxes drain_loop round take_next pop deliver try_pop push store
drained_counts = (refl, refl)

-- The other producer takes the 0 in between.
next_valid-some_example :
    (id : ℕ) × (after : ℕ) × (next_valid (0 ∷ 1 ∷ 0 ∷ []) internal_ota_correlation_id
      ≡ (some id, after))
    × ((id < 2 ^ 32) × ((id ≢ 0) × (id ≢ internal_ota_correlation_id)))
next_valid-some_example = next_valid-some 0 1 0 [] internal_ota_correlation_id (omega arith)

-- Two rounds are not enough where the two reserved values are met.
two_rounds_fail : (next_valid (0 ∷ 1 ∷ []) internal_ota_correlation_id).0 ≡ none
unfolding next_valid
two_rounds_fail = refl
