-- ===== src/Flash/Exclusion.antt =====
-- components/smoker_platform/include/smoker/platform/flash_operation_coordinator.hpp: one owner.
use smoker_firmware.Common.{
  ◌≡◌, refl, sym, subst, if◌then◌else◌, Bool, true, false, ◌&&◌, Bool-cases, inl, inr,
}
use smoker_firmware.Flash.{
  FlashOwner, Coordinator, exchange_owner, try_acquire_history, try_acquire_ota,
}
use smoker_firmware.Flash.Steps.{
  HistoryTask, OtaTask, System, history_after, ota_after, Step, turn_away, admit, take_history,
  give_back, announce, take_ota, release_held, release_idle, keep_deferred, resume, defer, Reach,
  here,
}

abbrev pub history_holds : HistoryTask → Bool
history_holds HistoryTask.holding = true
history_holds _ = false

abbrev pub ota_holds : OtaTask → Bool
ota_holds OtaTask.holding = true
ota_holds _ = false

abbrev pub owner_for : Bool → Bool → FlashOwner
owner_for true _ = FlashOwner.history
owner_for false true = FlashOwner.ota
owner_for false false = FlashOwner.no_owner

-- The owner that is stored is the task that holds the flash, and no two tasks hold it.
pub record IsOwned (s : System) : Type 0 where
  pub agreed : s.coordinator.owner ≡ owner_for (history_holds s.history) (ota_holds s.ota)
  pub apart : (history_holds s.history && ota_holds s.ota) ≡ false

Step-IsOwned : {s t : System} → Step s t → IsOwned s → IsOwned t
Step-IsOwned (turn_away d) v = v
Step-IsOwned (admit d) v = record { agreed = v.agreed; apart = refl }
Step-IsOwned (take_history {o = OtaTask.holding}) v = record {
  agreed = rw v.agreed refl;
  apart = rw v.agreed refl;
}
Step-IsOwned (take_history {o = OtaTask.resting}) v = record {
  agreed = rw v.agreed refl;
  apart = rw v.agreed refl;
}
Step-IsOwned (take_history {o = OtaTask.announced}) v = record {
  agreed = rw v.agreed refl;
  apart = rw v.agreed refl;
}
Step-IsOwned (take_history {o = OtaTask.released}) v = record {
  agreed = rw v.agreed refl;
  apart = rw v.agreed refl;
}
Step-IsOwned (give_back {o = OtaTask.holding}) v = absurd (cc (v.apart))
Step-IsOwned (give_back {o = OtaTask.resting}) v = record {
  agreed = rw v.agreed refl;
  apart = refl;
}
Step-IsOwned (give_back {o = OtaTask.announced}) v = record {
  agreed = rw v.agreed refl;
  apart = refl;
}
Step-IsOwned (give_back {o = OtaTask.released}) v = record {
  agreed = rw v.agreed refl;
  apart = refl;
}
Step-IsOwned announce v = record { agreed = v.agreed; apart = v.apart }
Step-IsOwned (take_ota {h = HistoryTask.holding}) v = record {
  agreed = rw v.agreed refl;
  apart = rw v.agreed refl;
}
Step-IsOwned (take_ota {h = HistoryTask.resting}) v = record {
  agreed = rw v.agreed refl;
  apart = refl;
}
Step-IsOwned (take_ota {h = HistoryTask.admitted}) v = record {
  agreed = rw v.agreed refl;
  apart = refl;
}
Step-IsOwned (release_held {h = HistoryTask.holding}) v = absurd (cc (v.apart))
Step-IsOwned (release_held {h = HistoryTask.resting}) v = record {
  agreed = rw v.agreed refl;
  apart = refl;
}
Step-IsOwned (release_held {h = HistoryTask.admitted}) v = record {
  agreed = rw v.agreed refl;
  apart = refl;
}
Step-IsOwned (release_idle {h = HistoryTask.holding}) v = record {
  agreed = rw v.agreed refl;
  apart = refl;
}
Step-IsOwned (release_idle {h = HistoryTask.resting}) v = record {
  agreed = rw v.agreed refl;
  apart = refl;
}
Step-IsOwned (release_idle {h = HistoryTask.admitted}) v = record {
  agreed = rw v.agreed refl;
  apart = refl;
}
Step-IsOwned keep_deferred v = record { agreed = v.agreed; apart = v.apart }
Step-IsOwned resume v = record { agreed = v.agreed; apart = v.apart }
Step-IsOwned (defer d) v = record { agreed = v.agreed; apart = v.apart }

-- In whatever order the two tasks acquire, release and defer: the history task and the updater never
-- hold the flash at the same time, and the stored owner is the one that holds it.
pub Reach-IsOwned : {s : System} → Reach s → IsOwned s
Reach-IsOwned here = record { agreed = refl; apart = refl }
Reach-IsOwned (Reach.then r st) = Step-IsOwned st (Reach-IsOwned r)

-- `try_acquire_history` after the test of the deferral.
abbrev tested : Coordinator → Bool → Bool × Coordinator
tested c deferred =
    if deferred then (false, c) else exchange_owner FlashOwner.no_owner FlashOwner.history c

abbrev IsReached : OtaTask → Bool × Coordinator → Type 0
IsReached o r = Reach (record { coordinator = r.1; history = history_after r.0; ota = o })

-- A call of `try_acquire_history` with no access of the updater in between is a run of the step
-- relation, and so is a call of `try_acquire_ota` with none of the history task.
try_acquire-Reach :
    (c : Coordinator) (h : HistoryTask) (o : OtaTask)
    → (Reach (record { coordinator = c; history = HistoryTask.resting; ota = o })
        → Reach (record {
          coordinator = (try_acquire_history c).1;
          history = history_after (try_acquire_history c).0;
          ota = o;
        }))
      × (Reach (record { coordinator = c; history = h; ota = OtaTask.resting })
          → Reach (record {
            coordinator = (try_acquire_ota c).1;
            history = h;
            ota = ota_after (try_acquire_ota c).0;
          }))
unfolding try_acquire_history try_acquire_ota
try_acquire-Reach c h o = (
  λ r. elim (Bool-cases c.history_deferred) [
    | inl d ↦ subst (λ b. IsReached o (tested c b)) (sym d) (Reach.then r (turn_away d))
    | inr d ↦
        subst (λ b. IsReached o (tested c b)) (sym d)
          (Reach.then (Reach.then r (admit d)) take_history)
  ],
  λ r. Reach.then (Reach.then r announce) take_ota,
)
