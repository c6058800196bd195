-- ===== src/Firmware/Coordinator/Reach.antt =====
-- components/smoker_platform/src/firmware_update_support.cpp: every state the updater can reach.
use smoker_firmware.Common.{ℕ, ◌≡◌, refl, List, true, inl, inr, some, String}
use smoker_firmware.Core.Domain.{SessionStatus}
use smoker_firmware.App.Snapshot.{SnapshotView}
use smoker_firmware.Firmware.Version.{Text}
use smoker_firmware.Firmware.Image.{
  FirmwareImageMetadata, descriptor, parse_firmware_image_metadata,
}
use smoker_firmware.Firmware.Image.Fits.{version-fits}
use smoker_firmware.Firmware.Coordinator.{
  FirmwareUpdateState, Coordinator, new_coordinator, begin_check, fail, complete_check,
  begin_install, cancel_install, observe_application_snapshot, note_install_progress,
  note_rebooting, begin_validation, note_validation_succeeded, consume_finish_signal,
}
use smoker_firmware.Firmware.Coordinator.Invariant.{
  holds_permission, IsCoordinator, new_coordinator-IsCoordinator, begin_validation-IsCoordinator,
  begin_check-IsCoordinator, fail-IsCoordinator,
}
use smoker_firmware.Firmware.Coordinator.Calls.{
  complete_check-IsCoordinator, begin_install-IsCoordinator, cancel_install-IsCoordinator,
  observe_application_snapshot-IsCoordinator, note_install_progress-IsCoordinator,
  note_rebooting-IsCoordinator, note_validation_succeeded-IsCoordinator,
  consume_finish_signal-IsCoordinator,
}
use smoker_firmware.Firmware.Coordinator.Permission.{
  IsReturned, begin_check-IsReturned, fail-IsReturned, complete_check-IsReturned,
  begin_install-IsReturned, observe_application_snapshot-IsReturned,
  note_install_progress-IsReturned, note_rebooting-IsReturned,
}

-- The calls of the updater, in any order, as components/smoker_platform/src/firmware_update_service.cpp makes them: a validation
-- begins only with the coordinator, its success is noted only while it runs, and a checked descriptor
-- is that of a parsed image.
pub data Reach (own : Text) : Coordinator → Type 0 where
  booted : Reach own (new_coordinator own)
  validating : Reach own (begin_validation (new_coordinator own))
  check : {c : Coordinator} → Reach own c → Reach own (begin_check c).1
  checked :
      {c : Coordinator} (prefix : List ℕ) (m : FirmwareImageMetadata)
      → parse_firmware_image_metadata prefix ≡ some m
      → Reach own c
      → Reach own (complete_check (descriptor m) c)
  failing : {c : Coordinator} (error : String) → Reach own c → Reach own (fail error c)
  install :
      {c : Coordinator} (requested : Text) (status : SessionStatus) (id : ℕ)
      → Reach own c
      → Reach own (begin_install requested status id c).1
  cancel : {c : Coordinator} (id : ℕ) → Reach own c → Reach own (cancel_install id c)
  observe :
      {c : Coordinator} (s : SnapshotView)
      → Reach own c
      → Reach own (observe_application_snapshot s c)
  progress :
      {c : Coordinator} (percent : ℕ) → Reach own c → Reach own (note_install_progress percent c)
  reboot : {c : Coordinator} → Reach own c → Reach own (note_rebooting c)
  validated :
      {c : Coordinator}
      → c.status.state ≡ FirmwareUpdateState.validating
      → Reach own c
      → Reach own (note_validation_succeeded c)
  consume : {c : Coordinator} → Reach own c → Reach own (consume_finish_signal c).1

-- In every state that the updater's calls reach: an installation may begin only while installing;
-- installing is allowed, as the status tells it, exactly in the state Available; the id of the
-- permission is not zero exactly while an installation waits, runs or reboots; and wherever a version
-- is offered, waits or is installed, its text parses to a version newer than the one that runs.
pub Reach-IsCoordinator : {own : Text} {c : Coordinator} → Reach own c → IsCoordinator c
Reach-IsCoordinator {own} booted = new_coordinator-IsCoordinator own
Reach-IsCoordinator {own} validating = begin_validation-IsCoordinator own
Reach-IsCoordinator (check {c} r) = begin_check-IsCoordinator c (Reach-IsCoordinator r)
Reach-IsCoordinator (checked {c} prefix m p r) =
    complete_check-IsCoordinator (descriptor m) c (version-fits prefix m p) (Reach-IsCoordinator r)
Reach-IsCoordinator (failing {c} error r) = fail-IsCoordinator error c
Reach-IsCoordinator (install {c} requested status id r) =
    begin_install-IsCoordinator requested status id c (Reach-IsCoordinator r)
Reach-IsCoordinator (cancel {c} id r) = cancel_install-IsCoordinator id c (Reach-IsCoordinator r)
Reach-IsCoordinator (observe {c} s r) =
    observe_application_snapshot-IsCoordinator s c (Reach-IsCoordinator r)
Reach-IsCoordinator (progress {c} percent r) =
    note_install_progress-IsCoordinator percent c (Reach-IsCoordinator r)
Reach-IsCoordinator (reboot {c} r) = note_rebooting-IsCoordinator c (Reach-IsCoordinator r)
Reach-IsCoordinator (validated {c} e r) =
    note_validation_succeeded-IsCoordinator c e (Reach-IsCoordinator r)
Reach-IsCoordinator (consume {c} r) = consume_finish_signal-IsCoordinator c (Reach-IsCoordinator r)

-- The calls of the updater but `cancel_install`, by which the caller takes an installation back whose
-- command the application has not accepted, and `consume_finish_signal`.
pub data Later : Coordinator → Coordinator → Type 0 where
  same : {c : Coordinator} → Later c c
  check : {c d : Coordinator} → Later c d → Later c (begin_check d).1
  checked :
      {c d : Coordinator} (prefix : List ℕ) (m : FirmwareImageMetadata)
      → parse_firmware_image_metadata prefix ≡ some m
      → Later c d
      → Later c (complete_check (descriptor m) d)
  failing : {c d : Coordinator} (error : String) → Later c d → Later c (fail error d)
  install :
      {c d : Coordinator} (requested : Text) (status : SessionStatus) (id : ℕ)
      → Later c d
      → Later c (begin_install requested status id d).1
  observe :
      {c d : Coordinator} (s : SnapshotView)
      → Later c d
      → Later c (observe_application_snapshot s d)
  progress :
      {c d : Coordinator} (percent : ℕ) → Later c d → Later c (note_install_progress percent d)
  reboot : {c d : Coordinator} → Later c d → Later c (note_rebooting d)
  validated :
      {c d : Coordinator}
      → d.status.state ≡ FirmwareUpdateState.validating
      → Later c d
      → Later c (note_validation_succeeded d)

Later-Reach : {own : Text} {c d : Coordinator} → Reach own c → Later c d → Reach own d
Later-Reach r Later.same = r
Later-Reach r (Later.check l) = check (Later-Reach r l)
Later-Reach r (Later.checked prefix m p l) = checked prefix m p (Later-Reach r l)
Later-Reach r (Later.failing error l) = failing error (Later-Reach r l)
Later-Reach r (Later.install requested status id l) = install requested status id (Later-Reach r l)
Later-Reach r (Later.observe s l) = observe s (Later-Reach r l)
Later-Reach r (Later.progress percent l) = progress percent (Later-Reach r l)
Later-Reach r (Later.reboot l) = reboot (Later-Reach r l)
Later-Reach r (Later.validated e l) = validated e (Later-Reach r l)

-- A permission is given back: from a reached state in which the update waits for the application's
-- permission, installs or reboots, whatever is called, fails or succeeds afterwards, in any order,
-- but a cancellation and the consumption of the signal: the update is again in such a state, or the
-- finish signal stands for its consumer.
pub Later-IsReturned :
    {own : Text} {c d : Coordinator}
    → Reach own c
    → holds_permission c.status.state ≡ true
    → Later c d
    → IsReturned d
unfolding note_validation_succeeded
Later-IsReturned r h Later.same = inl h
Later-IsReturned r h (Later.check {d} l) = begin_check-IsReturned d (Later-IsReturned r h l)
Later-IsReturned r h (Later.checked {d} prefix m p l) =
    complete_check-IsReturned (descriptor m) d (Reach-IsCoordinator (Later-Reach r l))
      (Later-IsReturned r h l)
Later-IsReturned r h (Later.failing {d} error l) =
    fail-IsReturned error d (Reach-IsCoordinator (Later-Reach r l)) (Later-IsReturned r h l)
Later-IsReturned r h (Later.install {d} requested status id l) =
    begin_install-IsReturned requested status id d (Later-IsReturned r h l)
Later-IsReturned r h (Later.observe {d} s l) =
    observe_application_snapshot-IsReturned s d (Reach-IsCoordinator (Later-Reach r l))
      (Later-IsReturned r h l)
Later-IsReturned r h (Later.progress {d} percent l) =
    note_install_progress-IsReturned percent d (Later-IsReturned r h l)
Later-IsReturned r h (Later.reboot {d} l) = note_rebooting-IsReturned d (Later-IsReturned r h l)
Later-IsReturned r h (Later.validated e l) = inr refl
