-- ===== src/Firmware/Coordinator/Calls.antt =====
-- components/smoker_platform/src/firmware_update_support.cpp: the calls that move an installation on.
use smoker_firmware.Common.{
  if_holds, ℕ, ◌≡◌, refl, ap, ◌∙◌, Bool, true, false, not, ◌||◌, Bool-cases, inl, inr, Option, none,
  some, arith, if◌then◌else◌,
}
use smoker_firmware.Core.Domain.{SessionStatus}
use smoker_firmware.App.Commands.{CommandResult}
use smoker_firmware.App.Snapshot.{SnapshotView}
use smoker_firmware.Firmware.Version.{Text, SemanticVersion, parse, is_newer}
use smoker_firmware.Firmware.Image.{
  FirmwareImageDescriptor, FirmwareDescriptorDecision, decision_of, validate_firmware_descriptor,
}
use smoker_firmware.Firmware.Coordinator.{
  FirmwareUpdateState, Coordinator, copy_bounded, is_available, is_checking, is_waiting,
  is_installing, refresh_installation_allowed, check_against, complete_check, refuses_install,
  begin_install, cancel_install, act_on_result, observe_application_snapshot, note_install_progress,
  note_rebooting, note_validation_succeeded, consume_finish_signal,
}
use smoker_firmware.Firmware.Coordinator.Invariant.{
  holds_permission, IsOffer, IsCoordinator, tests_of_state, quiet-IsCoordinator, no_permission,
  fail-IsCoordinator, act_on-IsCoordinator,
}

decided_newer :
    (p q : Bool) (o : Option SemanticVersion) (current : SemanticVersion)
    → (if p
        then FirmwareDescriptorDecision.wrong_project
        else if q
        then FirmwareDescriptorDecision.wrong_target
        else decision_of o current)
      ≡ FirmwareDescriptorDecision.newer
    → (candidate : SemanticVersion) × ((o ≡ some candidate) × (is_newer candidate current ≡ true))
unfolding decision_of
decided_newer true q o current h = absurd (cc h)
decided_newer false true o current h = absurd (cc h)
decided_newer false false none current h = absurd (cc h)
decided_newer false false (some v) current h = elim (Bool-cases (is_newer v current)) [
  | inl e ↦ (v, (refl, e))
  | inr e ↦ absurd (
      cc (
        h,
        ap
            (λ b.
              if b then FirmwareDescriptorDecision.newer else FirmwareDescriptorDecision.not_newer)
            e,
      ))
]

check_against-IsCoordinator :
    (d : FirmwareImageDescriptor) (o : Option SemanticVersion) (c : Coordinator)
    → copy_bounded d.version ≡ d.version
    → c.current_semantic_version ≡ o
    → IsCoordinator c
    → holds_permission c.status.state ≡ false
    → IsCoordinator (check_against o d c)
unfolding check_against validate_firmware_descriptor
check_against-IsCoordinator d none c fits e v p = v
check_against-IsCoordinator d (some current) c fits e v p =
    let (i, r) = no_permission c v p in
    act_on-IsCoordinator d current c (validate_firmware_descriptor d current) fits e i r
      (λ h. decided_newer _ _ (parse d.version) current h)

-- A version that is not cut off on its way into the status.
pub complete_check-IsCoordinator :
    (d : FirmwareImageDescriptor) (c : Coordinator)
    → copy_bounded d.version ≡ d.version
    → IsCoordinator c
    → IsCoordinator (complete_check d c)
unfolding complete_check
complete_check-IsCoordinator d c fits v =
    if_holds IsCoordinator (not (is_checking c.status.state)) (λ b. v)
      (λ b.
        check_against-IsCoordinator d c.current_semantic_version c fits refl v
          (ap holds_permission ((tests_of_state c.status.state).1.0 (ground (arith, b)))))

pub begin_install-IsCoordinator :
    (requested : Text) (status : SessionStatus) (id : ℕ) (c : Coordinator)
    → IsCoordinator c
    → IsCoordinator (begin_install requested status id c).1
unfolding begin_install
begin_install-IsCoordinator requested status id c v =
    if_holds (λ (p : Bool × Coordinator). IsCoordinator p.1) (refuses_install requested status id c)
      (λ b. v)
      (λ b.
        let o = v.offer (ground (arith, b)) in
        record {
          allowed = refl;
          ready = λ h. absurd (cc h);
          permission = ground (arith, b);
          offer = λ h. record {
            current = o.current;
            available = o.available;
            is_current = o.is_current;
            is_available_version = o.is_available_version;
            text = o.text;
            newer = o.newer;
          };
        })

-- A change of the state and of the permission that keeps the versions.
kept-IsOffer :
    (c : Coordinator) (state : FirmwareUpdateState) (allowed ready finish : Bool) (id percent : ℕ)
    → IsOffer c
    → IsOffer (record c {
      status = record (c.status) {
        state = state;
        installation_allowed = allowed;
        progress_percent = percent;
      };
      permission_correlation_id = id;
      installation_ready = ready;
      finish_signal = finish;
    })
kept-IsOffer c state allowed ready finish id percent o = record {
  current = o.current;
  available = o.available;
  is_current = o.is_current;
  is_available_version = o.is_available_version;
  text = o.text;
  newer = o.newer;
}

held-IsOffer :
    (c : Coordinator) → IsCoordinator c → holds_permission c.status.state ≡ true → IsOffer c
held-IsOffer c v h = v.offer (ground (arith, h))

pub cancel_install-IsCoordinator :
    (id : ℕ) (c : Coordinator) → IsCoordinator c → IsCoordinator (cancel_install id c)
unfolding cancel_install refresh_installation_allowed
cancel_install-IsCoordinator id c v =
    if_holds IsCoordinator _ (λ b. v)
      (λ b.
        let w = (tests_of_state c.status.state).0.1 (ground (arith, b)) in
        record {
          allowed = refl;
          ready = λ h. absurd (cc h);
          permission = refl;
          offer = λ h.
              kept-IsOffer c FirmwareUpdateState.available true false c.finish_signal 0
                c.status.progress_percent (held-IsOffer c v (ap holds_permission w));
        })

act_on_result-IsCoordinator :
    (o : Option CommandResult) (active : Bool) (c : Coordinator)
    → IsCoordinator c
    → c.status.state ≡ FirmwareUpdateState.waiting_permission
    → IsCoordinator (act_on_result o active c)
unfolding act_on_result
act_on_result-IsCoordinator none active c v w = v
act_on_result-IsCoordinator (some r) active c v w =
    if_holds IsCoordinator (not r.semantic_accepted || not active)
      (λ b. fail-IsCoordinator "installation_not_permitted" c)
      (λ b. record {
        allowed = v.allowed ∙ ap is_available w;
        ready = λ h. refl;
        permission = v.permission ∙ ap (λ s. not (holds_permission s)) w;
        offer = λ h.
            kept-IsOffer c FirmwareUpdateState.installing c.status.installation_allowed true
              c.finish_signal c.permission_correlation_id c.status.progress_percent
              (held-IsOffer c v (ap holds_permission w));
      })

pub observe_application_snapshot-IsCoordinator :
    (s : SnapshotView) (c : Coordinator)
    → IsCoordinator c
    → IsCoordinator (observe_application_snapshot s c)
unfolding observe_application_snapshot
observe_application_snapshot-IsCoordinator s c v =
    if_holds IsCoordinator (not (is_waiting c.status.state)) (λ b. v)
      (λ b.
        act_on_result-IsCoordinator _ s.firmware_update_active c v
          ((tests_of_state c.status.state).0.1 (ground (arith, b))))

pub note_install_progress-IsCoordinator :
    (percent : ℕ) (c : Coordinator)
    → IsCoordinator c
    → IsCoordinator (note_install_progress percent c)
unfolding note_install_progress
note_install_progress-IsCoordinator percent c v =
    if_holds IsCoordinator (is_installing c.status.state)
      (λ b. record {
        allowed = v.allowed;
        ready = v.ready;
        permission = v.permission;
        offer = λ h.
            kept-IsOffer c c.status.state c.status.installation_allowed c.installation_ready
              c.finish_signal c.permission_correlation_id _ (v.offer h);
      })
      (λ b. v)

pub note_rebooting-IsCoordinator :
    (c : Coordinator) → IsCoordinator c → IsCoordinator (note_rebooting c)
unfolding note_rebooting
note_rebooting-IsCoordinator c v =
    if_holds IsCoordinator (is_installing c.status.state)
      (λ b.
        let w = (tests_of_state c.status.state).0.0 b in
        record {
          allowed = v.allowed ∙ ap is_available w;
          ready = λ h. absurd (cc h);
          permission = v.permission ∙ ap (λ s. not (holds_permission s)) w;
          offer = λ h.
              kept-IsOffer c FirmwareUpdateState.rebooting c.status.installation_allowed false
                c.finish_signal c.permission_correlation_id 100
                (held-IsOffer c v (ap holds_permission w));
        })
      (λ b. v)

pub note_validation_succeeded-IsCoordinator :
    (c : Coordinator)
    → c.status.state ≡ FirmwareUpdateState.validating
    → IsCoordinator c
    → IsCoordinator (note_validation_succeeded c)
unfolding note_validation_succeeded refresh_installation_allowed
note_validation_succeeded-IsCoordinator c w v =
    quiet-IsCoordinator _ refl refl refl (no_permission c v (ap holds_permission w)).1 refl

pub consume_finish_signal-IsCoordinator :
    (c : Coordinator) → IsCoordinator c → IsCoordinator (consume_finish_signal c).1
unfolding consume_finish_signal
consume_finish_signal-IsCoordinator c v = record {
  allowed = v.allowed;
  ready = v.ready;
  permission = v.permission;
  offer = λ h.
      kept-IsOffer c c.status.state c.status.installation_allowed c.installation_ready false
        c.permission_correlation_id c.status.progress_percent (v.offer h);
}
