-- ===== src/Firmware/Coordinator/Permission.antt =====
-- components/smoker_platform/src/firmware_update_support.cpp: the application's permission is given back.
use smoker_firmware.Common.{
  if_holds, ℕ, ◌≡◌, refl, ap, Bool, true, false, not, ◌||◌, ◌⊎◌, inl, inr, Option, none, some,
  arith, has_value, String,
}
use smoker_firmware.Core.Domain.{SessionStatus}
use smoker_firmware.App.Commands.{CommandResult}
use smoker_firmware.App.Snapshot.{SnapshotView}
use smoker_firmware.Firmware.Version.{Text, SemanticVersion}
use smoker_firmware.Firmware.Image.{
  FirmwareImageDescriptor, FirmwareDescriptorDecision, validate_firmware_descriptor,
}
use smoker_firmware.Firmware.Coordinator.{
  Coordinator, is_checking, is_waiting, is_installing, is_busy, refresh_installation_allowed,
  begin_check, fail, act_on, check_against, complete_check, refuses_install, begin_install,
  act_on_result, observe_application_snapshot, note_install_progress, note_rebooting,
}
use smoker_firmware.Firmware.Coordinator.Invariant.{
  holds_permission, IsCoordinator, tests_of_state, not_busy-no_permission,
}

-- The update holds the application's permission, or the signal that gives it back stands.
abbrev pub IsReturned : Coordinator → Type 0
IsReturned c = (holds_permission c.status.state ≡ true) ⊎ (c.finish_signal ≡ true)

-- Only the signal matters in a state without permission.
signal_only :
    (c : Coordinator)
    → IsReturned c
    → holds_permission c.status.state ≡ false
    → c.finish_signal ≡ true
signal_only c r h = elim r [ inl p ↦ absurd (cc (p, h)) | inr f ↦ f ]

pub begin_check-IsReturned : (c : Coordinator) → IsReturned c → IsReturned (begin_check c).1
unfolding begin_check refresh_installation_allowed
begin_check-IsReturned c r =
    if_holds (λ (p : Bool × Coordinator). IsReturned p.1)
      (not (has_value c.current_semantic_version) || is_busy c.status.state) (λ b. r)
      (λ b. inr (signal_only c r (not_busy-no_permission c.status.state (ground (arith, b)))))

-- A failure while permission is held raises the signal, and one after it leaves it standing.
pub fail-IsReturned :
    (error : String) (c : Coordinator) → IsCoordinator c → IsReturned c → IsReturned (fail error c)
unfolding fail refresh_installation_allowed
fail-IsReturned error c v r = elim r [
  | inl p ↦ inr (ground (arith, v.permission, p))
  | inr f ↦ inr (ground (arith, f))
]

act_on-IsReturned :
    (decision : FirmwareDescriptorDecision) (d : FirmwareImageDescriptor) (c : Coordinator)
    → IsCoordinator c
    → IsReturned c
    → holds_permission c.status.state ≡ false
    → IsReturned (act_on decision d c)
unfolding act_on refresh_installation_allowed
act_on-IsReturned FirmwareDescriptorDecision.newer d c v r h = inr (signal_only c r h)
act_on-IsReturned FirmwareDescriptorDecision.not_newer d c v r h = inr (signal_only c r h)
act_on-IsReturned FirmwareDescriptorDecision.invalid_version d c v r h =
    fail-IsReturned "image_version_invalid" c v r
act_on-IsReturned FirmwareDescriptorDecision.wrong_project d c v r h =
    fail-IsReturned "image_project_invalid" c v r
act_on-IsReturned FirmwareDescriptorDecision.wrong_target d c v r h =
    fail-IsReturned "image_target_invalid" c v r

check_against-IsReturned :
    (o : Option SemanticVersion) (d : FirmwareImageDescriptor) (c : Coordinator)
    → IsCoordinator c
    → IsReturned c
    → holds_permission c.status.state ≡ false
    → IsReturned (check_against o d c)
unfolding check_against
check_against-IsReturned none d c v r h = r
check_against-IsReturned (some current) d c v r h =
    act_on-IsReturned (validate_firmware_descriptor d current) d c v r h

pub complete_check-IsReturned :
    (d : FirmwareImageDescriptor) (c : Coordinator)
    → IsCoordinator c
    → IsReturned c
    → IsReturned (complete_check d c)
unfolding complete_check
complete_check-IsReturned d c v r =
    if_holds (IsReturned) (not (is_checking c.status.state)) (λ b. r)
      (λ b.
        check_against-IsReturned c.current_semantic_version d c v r
          (ap holds_permission ((tests_of_state c.status.state).1.0 (ground (arith, b)))))

pub begin_install-IsReturned :
    (requested : Text) (status : SessionStatus) (id : ℕ) (c : Coordinator)
    → IsReturned c
    → IsReturned (begin_install requested status id c).1
unfolding begin_install
begin_install-IsReturned requested status id c r =
    if_holds (λ (p : Bool × Coordinator). IsReturned p.1) (refuses_install requested status id c)
      (λ b. r) (λ b. inl refl)

act_on_result-IsReturned :
    (o : Option CommandResult) (active : Bool) (c : Coordinator)
    → IsCoordinator c
    → IsReturned c
    → IsReturned (act_on_result o active c)
unfolding act_on_result
act_on_result-IsReturned none active c v r = r
act_on_result-IsReturned (some result) active c v r =
    if_holds (IsReturned) (not result.semantic_accepted || not active)
      (λ b. fail-IsReturned "installation_not_permitted" c v r) (λ b. inl refl)

pub observe_application_snapshot-IsReturned :
    (s : SnapshotView) (c : Coordinator)
    → IsCoordinator c
    → IsReturned c
    → IsReturned (observe_application_snapshot s c)
unfolding observe_application_snapshot
observe_application_snapshot-IsReturned s c v r =
    if_holds (IsReturned) (not (is_waiting c.status.state)) (λ b. r)
      (λ b. act_on_result-IsReturned _ s.firmware_update_active c v r)

pub note_install_progress-IsReturned :
    (percent : ℕ) (c : Coordinator) → IsReturned c → IsReturned (note_install_progress percent c)
unfolding note_install_progress
note_install_progress-IsReturned percent c r =
    if_holds (IsReturned) (is_installing c.status.state) (λ b. r) (λ b. r)

pub note_rebooting-IsReturned : (c : Coordinator) → IsReturned c → IsReturned (note_rebooting c)
unfolding note_rebooting
note_rebooting-IsReturned c r =
    if_holds (IsReturned) (is_installing c.status.state) (λ b. inl refl) (λ b. r)
