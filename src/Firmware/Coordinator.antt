-- ===== src/Firmware/Coordinator.antt =====
-- components/smoker_platform/src/firmware_update_support.cpp: `FirmwareUpdateCoordinator`.
pub mod Invariant
pub mod Calls
pub mod Permission
pub mod Reach
pub mod Start
use smoker_firmware.Common.{
  ℕ, List, [], ◌∷◌, Bool, true, false, not, ◌&&◌, ◌||◌, Option, none, some, if◌then◌else◌, ◌==◌,
  ltb, has_value, take, find_if, String,
}
use smoker_firmware.Core.Domain.{SessionStatus}
use smoker_firmware.App.Commands.{CommandResult}
use smoker_firmware.App.Snapshot.{SnapshotView}
use smoker_firmware.Firmware.Version.{Text, SemanticVersion, parse}
use smoker_firmware.Firmware.Image.{
  FirmwareImageDescriptor, FirmwareDescriptorDecision, text_eq, validate_firmware_descriptor,
}

pub data FirmwareUpdateState : Type 0 where
  idle checking up_to_date available waiting_permission installing rebooting validating failed :
      FirmwareUpdateState

-- `FirmwareUpdateStatus`; an array of characters is what it reads as. The messages are shorter than
-- the 128 bytes of `error`.
pub record FirmwareUpdateStatus : Type 0 where
  pub state : FirmwareUpdateState
  pub current_version : Text
  pub available_version : Text
  pub progress_percent : ℕ
  pub installation_allowed : Bool
  pub error : String

pub record Coordinator : Type 0 where
  pub status : FirmwareUpdateStatus
  pub current_semantic_version : Option SemanticVersion
  pub available_semantic_version : Option SemanticVersion
  pub permission_correlation_id : ℕ
  pub installation_ready : Bool
  pub finish_signal : Bool

-- `copy_bounded` to an array of 32 characters.
abbrev pub copy_bounded : Text → Text
copy_bounded = take 31

abbrev pub is_available : FirmwareUpdateState → Bool
is_available FirmwareUpdateState.available = true
is_available _ = false

abbrev pub is_checking : FirmwareUpdateState → Bool
is_checking FirmwareUpdateState.checking = true
is_checking _ = false

abbrev pub is_waiting : FirmwareUpdateState → Bool
is_waiting FirmwareUpdateState.waiting_permission = true
is_waiting _ = false

abbrev pub is_installing : FirmwareUpdateState → Bool
is_installing FirmwareUpdateState.installing = true
is_installing _ = false

abbrev pub is_running_session : SessionStatus → Bool
is_running_session SessionStatus.running = true
is_running_session _ = false

-- The states in which `begin_check` is refused.
abbrev pub is_busy : FirmwareUpdateState → Bool
is_busy FirmwareUpdateState.checking = true
is_busy FirmwareUpdateState.waiting_permission = true
is_busy FirmwareUpdateState.installing = true
is_busy FirmwareUpdateState.rebooting = true
is_busy FirmwareUpdateState.validating = true
is_busy _ = false

unfoldable pub refresh_installation_allowed : Coordinator → Coordinator
refresh_installation_allowed c = record c {
  status = record (c.status) { installation_allowed = is_available c.status.state };
}

unfoldable pub new_coordinator : Text → Coordinator
unfolding parse
new_coordinator current_version = record {
  status = record {
    state =
        if has_value (parse current_version)
        then FirmwareUpdateState.idle
        else FirmwareUpdateState.failed;
    current_version = copy_bounded current_version;
    available_version = [];
    progress_percent = 0;
    installation_allowed = false;
    error = if has_value (parse current_version) then "" else "current_version_invalid";
  };
  current_semantic_version = parse current_version;
  available_semantic_version = none;
  permission_correlation_id = 0;
  installation_ready = false;
  finish_signal = false;
}

unfoldable pub begin_check : Coordinator → Bool × Coordinator
unfolding refresh_installation_allowed
begin_check c =
    if not (has_value c.current_semantic_version) || is_busy c.status.state then (false, c) else (
      true,
      refresh_installation_allowed (record c {
        status = record (c.status) {
          state = FirmwareUpdateState.checking;
          progress_percent = 0;
          available_version = [];
          error = "";
        };
        available_semantic_version = none;
      }),
    )

unfoldable pub fail : String → Coordinator → Coordinator
unfolding refresh_installation_allowed
fail error c = refresh_installation_allowed (record c {
  status = record (c.status) {
    state = FirmwareUpdateState.failed;
    progress_percent = 0;
    error = error;
  };
  installation_ready = false;
  finish_signal = if c.permission_correlation_id == 0 then c.finish_signal else true;
  permission_correlation_id = 0;
})

abbrev pub act_on : FirmwareDescriptorDecision → FirmwareImageDescriptor → Coordinator → Coordinator
unfolding refresh_installation_allowed fail parse
act_on FirmwareDescriptorDecision.newer d c = refresh_installation_allowed (record c {
  available_semantic_version = parse d.version;
  status = record (c.status) {
    available_version = copy_bounded d.version;
    state = FirmwareUpdateState.available;
  };
})
act_on FirmwareDescriptorDecision.not_newer d c =
    refresh_installation_allowed
      (record c { status = record (c.status) { state = FirmwareUpdateState.up_to_date } })
act_on FirmwareDescriptorDecision.invalid_version d c = fail "image_version_invalid" c
act_on FirmwareDescriptorDecision.wrong_project d c = fail "image_project_invalid" c
act_on FirmwareDescriptorDecision.wrong_target d c = fail "image_target_invalid" c

abbrev pub check_against :
    Option SemanticVersion → FirmwareImageDescriptor → Coordinator → Coordinator
unfolding act_on validate_firmware_descriptor
check_against none d c = c
check_against (some current) d c = act_on (validate_firmware_descriptor d current) d c

unfoldable pub complete_check : FirmwareImageDescriptor → Coordinator → Coordinator
unfolding check_against
complete_check d c =
    if not (is_checking c.status.state) then c else check_against c.current_semantic_version d c

abbrev pub refuses_install : Text → SessionStatus → ℕ → Coordinator → Bool
refuses_install requested_version session_status permission_correlation_id c =
    not (is_available c.status.state)
    || (is_running_session session_status
        || (permission_correlation_id == 0
            || (not (text_eq requested_version c.status.available_version)
                || not (has_value c.available_semantic_version))))

unfoldable pub begin_install : Text → SessionStatus → ℕ → Coordinator → Bool × Coordinator
begin_install requested_version session_status permission_correlation_id c =
    if refuses_install requested_version session_status permission_correlation_id c
    then (false, c)
    else (
      true,
      record c {
        status = record (c.status) {
          state = FirmwareUpdateState.waiting_permission;
          progress_percent = 0;
          error = "";
          installation_allowed = false;
        };
        permission_correlation_id = permission_correlation_id;
        installation_ready = false;
        finish_signal = false;
      },
    )

unfoldable pub cancel_install : ℕ → Coordinator → Coordinator
unfolding refresh_installation_allowed
cancel_install permission_correlation_id c =
    if not (is_waiting c.status.state)
      || not (c.permission_correlation_id == permission_correlation_id)
    then c
    else refresh_installation_allowed (record c {
      status = record (c.status) { state = FirmwareUpdateState.available };
      permission_correlation_id = 0;
      installation_ready = false;
    })

-- What the first result with the permission's id does; without one nothing changes.
abbrev pub act_on_result : Option CommandResult → Bool → Coordinator → Coordinator
unfolding fail
act_on_result none firmware_update_active c = c
act_on_result (some result) firmware_update_active c =
    if not result.semantic_accepted || not firmware_update_active
    then fail "installation_not_permitted" c
    else record c {
      status = record (c.status) { state = FirmwareUpdateState.installing };
      installation_ready = true;
    }

unfoldable pub observe_application_snapshot : SnapshotView → Coordinator → Coordinator
unfolding act_on_result find_if
observe_application_snapshot snapshot c =
    if not (is_waiting c.status.state)
    then c
    else act_on_result
        (find_if (λ r. r.correlation_id == c.permission_correlation_id) snapshot.command_results)
        snapshot.firmware_update_active c

unfoldable pub note_install_progress : ℕ → Coordinator → Coordinator
note_install_progress percent c =
    if is_installing c.status.state
    then record c {
      status = record (c.status) { progress_percent = if ltb 100 percent then 100 else percent };
    }
    else c

unfoldable pub note_rebooting : Coordinator → Coordinator
note_rebooting c =
    if is_installing c.status.state
    then record c {
      installation_ready = false;
      status = record (c.status) { state = FirmwareUpdateState.rebooting; progress_percent = 100 };
    }
    else c

unfoldable pub begin_validation : Coordinator → Coordinator
begin_validation c = record c {
  status = record (c.status) {
    state = FirmwareUpdateState.validating;
    progress_percent = 0;
    installation_allowed = false;
    error = "";
  };
}

unfoldable pub note_validation_succeeded : Coordinator → Coordinator
unfolding refresh_installation_allowed
note_validation_succeeded c = refresh_installation_allowed (record c {
  status = record (c.status) { state = FirmwareUpdateState.idle; progress_percent = 100 };
  permission_correlation_id = 0;
  finish_signal = true;
})

unfoldable pub consume_finish_signal : Coordinator → Bool × Coordinator
consume_finish_signal c = (c.finish_signal, record c { finish_signal = false })
