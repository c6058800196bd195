-- ===== src/Tests/Flash.antt =====
-- The coordinator of flash operations in a run of both tasks.
use smoker_firmware.Common.{refl, true}
use smoker_firmware.Flash.{FlashOwner}
use smoker_firmware.Flash.Steps.{
  HistoryTask, OtaTask, System, admit, take_history, announce, take_ota, Reach, here,
}
use smoker_firmware.Flash.Exclusion.{IsOwned, Reach-IsOwned}

-- The history task passes the test, the updater defers and takes the flash, the history task fails.
abbrev contended : System
contended = record {
  coordinator = record { owner = FlashOwner.ota; history_deferred = true };
  history = HistoryTask.resting;
  ota = OtaTask.holding;
}

contended-Reach : Reach contended
contended-Reach =
    Reach.then (Reach.then (Reach.then (Reach.then here (admit refl)) announce) take_ota)
      take_history

Reach-IsOwned_example : IsOwned contended
Reach-IsOwned_example = Reach-IsOwned contended-Reach
