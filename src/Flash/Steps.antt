-- ===== src/Flash/Steps.antt =====
-- components/smoker_platform/include/smoker/platform/flash_operation_coordinator.hpp: the history task
-- and the updater's task, interleaved at each access of the owner and of the deferral, which are taken
-- as sequentially consistent. The exclusion itself rests on the one atomic of the owner.
use smoker_firmware.Common.{◌≡◌, Bool, true, false}
use smoker_firmware.Flash.{
  FlashOwner, Coordinator, new_coordinator, exchange_owner, set_history_deferred,
}

-- Where the history task stands: outside, behind the test of the deferral, with the flash.
pub data HistoryTask : Type 0 where
  resting : HistoryTask
  admitted : HistoryTask
  holding : HistoryTask

-- Where the updater's task stands: outside, behind the write of the deferral, with the flash, before
-- the write of the deferral in `release_ota`.
pub data OtaTask : Type 0 where
  resting : OtaTask
  announced : OtaTask
  holding : OtaTask
  released : OtaTask

pub record System : Type 0 where
  pub coordinator : Coordinator
  pub history : HistoryTask
  pub ota : OtaTask

abbrev pub start : System
start = record {
  coordinator = new_coordinator;
  history = HistoryTask.resting;
  ota = OtaTask.resting;
}

-- Where the exchange of the owner leaves a task that wanted it.
abbrev pub history_after : Bool → HistoryTask
history_after true = HistoryTask.holding
history_after false = HistoryTask.resting

abbrev pub ota_after : Bool → OtaTask
ota_after true = OtaTask.holding
ota_after false = OtaTask.resting

pub data Step : System → System → Type 0 where
  turn_away :
      {c : Coordinator} {o : OtaTask}
      → c.history_deferred ≡ true
      → Step
          (record { coordinator = c; history = HistoryTask.resting; ota = o })
          (record { coordinator = c; history = HistoryTask.resting; ota = o })
  admit :
      {c : Coordinator} {o : OtaTask}
      → c.history_deferred ≡ false
      → Step
          (record { coordinator = c; history = HistoryTask.resting; ota = o })
          (record { coordinator = c; history = HistoryTask.admitted; ota = o })
  take_history :
      {c : Coordinator} {o : OtaTask}
      → Step
          (record { coordinator = c; history = HistoryTask.admitted; ota = o })
          (record {
            coordinator = (exchange_owner FlashOwner.no_owner FlashOwner.history c).1;
            history = history_after (exchange_owner FlashOwner.no_owner FlashOwner.history c).0;
            ota = o;
          })
  give_back :
      {c : Coordinator} {o : OtaTask}
      → Step
          (record { coordinator = c; history = HistoryTask.holding; ota = o })
          (record {
            coordinator = (exchange_owner FlashOwner.history FlashOwner.no_owner c).1;
            history = HistoryTask.resting;
            ota = o;
          })
  announce :
      {c : Coordinator} {h : HistoryTask}
      → Step
          (record { coordinator = c; history = h; ota = OtaTask.resting })
          (record {
            coordinator = set_history_deferred true c;
            history = h;
            ota = OtaTask.announced;
          })
  take_ota :
      {c : Coordinator} {h : HistoryTask}
      → Step
          (record { coordinator = c; history = h; ota = OtaTask.announced })
          (record {
            coordinator = (exchange_owner FlashOwner.no_owner FlashOwner.ota c).1;
            history = h;
            ota = ota_after (exchange_owner FlashOwner.no_owner FlashOwner.ota c).0;
          })
  -- `release_ota`, which the task may call without the flash as well.
  release_held :
      {c : Coordinator} {h : HistoryTask}
      → Step
          (record { coordinator = c; history = h; ota = OtaTask.holding })
          (record {
            coordinator = (exchange_owner FlashOwner.ota FlashOwner.no_owner c).1;
            history = h;
            ota = OtaTask.released;
          })
  release_idle :
      {c : Coordinator} {h : HistoryTask}
      → Step
          (record { coordinator = c; history = h; ota = OtaTask.resting })
          (record {
            coordinator = (exchange_owner FlashOwner.ota FlashOwner.no_owner c).1;
            history = h;
            ota = OtaTask.released;
          })
  keep_deferred :
      {c : Coordinator} {h : HistoryTask}
      → Step
          (record { coordinator = c; history = h; ota = OtaTask.released })
          (record { coordinator = c; history = h; ota = OtaTask.resting })
  resume :
      {c : Coordinator} {h : HistoryTask}
      → Step
          (record { coordinator = c; history = h; ota = OtaTask.released })
          (record {
            coordinator = set_history_deferred false c;
            history = h;
            ota = OtaTask.resting;
          })
  -- `set_history_deferred`, by whoever calls it.
  defer :
      {c : Coordinator} {h : HistoryTask} {o : OtaTask} (deferred : Bool)
      → Step
          (record { coordinator = c; history = h; ota = o })
          (record { coordinator = set_history_deferred deferred c; history = h; ota = o })

pub data Reach : System → Type 0 where
  here : Reach start
  then : {s t : System} → Reach s → Step s t → Reach t
