-- ===== src/Flash.antt =====
-- components/smoker_platform: flash_operation_coordinator.hpp, called by one task at a time.
pub mod Steps
pub mod Exclusion
use smoker_firmware.Common.{Bool, true, false, if◌then◌else◌}

pub data FlashOwner : Type 0 where
  no_owner history ota : FlashOwner

abbrev pub owner_eq : FlashOwner → FlashOwner → Bool
owner_eq FlashOwner.no_owner FlashOwner.no_owner = true
owner_eq FlashOwner.history FlashOwner.history = true
owner_eq FlashOwner.ota FlashOwner.ota = true
owner_eq _ _ = false

pub record Coordinator : Type 0 where
  pub owner : FlashOwner
  pub history_deferred : Bool

abbrev pub new_coordinator : Coordinator
new_coordinator = record { owner = FlashOwner.no_owner; history_deferred = false }

-- `owner_.compare_exchange_strong(expected, desired)`
abbrev pub exchange_owner : FlashOwner → FlashOwner → Coordinator → Bool × Coordinator
exchange_owner expected desired c =
    if owner_eq c.owner expected then (true, record c { owner = desired }) else (false, c)

abbrev pub set_history_deferred : Bool → Coordinator → Coordinator
set_history_deferred deferred c = record c { history_deferred = deferred }

unfoldable pub try_acquire_history : Coordinator → Bool × Coordinator
try_acquire_history c =
    if c.history_deferred
    then (false, c)
    else exchange_owner FlashOwner.no_owner FlashOwner.history c

unfoldable pub release_history : Coordinator → Coordinator
release_history c = (exchange_owner FlashOwner.history FlashOwner.no_owner c).1

unfoldable pub try_acquire_ota : Coordinator → Bool × Coordinator
try_acquire_ota c = exchange_owner FlashOwner.no_owner FlashOwner.ota (set_history_deferred true c)

unfoldable pub release_ota : Bool → Coordinator → Coordinator
release_ota keep_history_deferred c =
    let d : Coordinator = (exchange_owner FlashOwner.ota FlashOwner.no_owner c).1 in
    if keep_history_deferred then d else set_history_deferred false d
