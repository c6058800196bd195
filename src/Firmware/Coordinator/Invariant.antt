-- ===== src/Firmware/Coordinator/Invariant.antt =====
-- components/smoker_platform/src/firmware_update_support.cpp: what holds of the coordinator between calls.
use smoker_firmware.Common.{
  if_holds, ◌≡◌, refl, sym, ap, ap₂, ◌∙◌, Bool, true, false, not, ◌||◌, Bool-cases, inl, inr, some,
  arith, if◌then◌else◌, ◌==◌, ==_iff, has_value, String,
}
use smoker_firmware.Firmware.Version.{Text, SemanticVersion, parse, is_newer}
use smoker_firmware.Firmware.Image.{FirmwareImageDescriptor, FirmwareDescriptorDecision}
use smoker_firmware.Firmware.Coordinator.{
  FirmwareUpdateState, Coordinator, copy_bounded, is_available, is_checking, is_waiting,
  is_installing, is_busy, refresh_installation_allowed, new_coordinator, begin_check, fail, act_on,
  begin_validation,
}

-- The states in which the application is asked for, or has given, its permission.
abbrev pub holds_permission : FirmwareUpdateState → Bool
holds_permission FirmwareUpdateState.waiting_permission = true
holds_permission FirmwareUpdateState.installing = true
holds_permission FirmwareUpdateState.rebooting = true
holds_permission _ = false

-- A version is offered; its text is that of a newer version than the one that runs.
pub record IsOffer (c : Coordinator) : Type 0 where
  pub current : SemanticVersion
  pub available : SemanticVersion
  pub is_current : c.current_semantic_version ≡ some current
  pub is_available_version : c.available_semantic_version ≡ some available
  pub text : parse c.status.available_version ≡ some available
  pub newer : is_newer available current ≡ true

-- Permission of the application is held under its id in just these states; an installation may begin
-- only while installing; the status says so truly; and what may be installed is newer.
pub record IsCoordinator (c : Coordinator) : Type 0 where
  pub allowed : c.status.installation_allowed ≡ is_available c.status.state
  pub ready : c.installation_ready ≡ true → is_installing c.status.state ≡ true
  pub permission : (c.permission_correlation_id == 0) ≡ not (holds_permission c.status.state)
  pub offer : (is_available c.status.state || holds_permission c.status.state) ≡ true → IsOffer c

pub not_busy-no_permission :
    (s : FirmwareUpdateState) → is_busy s ≡ false → holds_permission s ≡ false
not_busy-no_permission FirmwareUpdateState.idle b = refl
not_busy-no_permission FirmwareUpdateState.checking b = refl
not_busy-no_permission FirmwareUpdateState.up_to_date b = refl
not_busy-no_permission FirmwareUpdateState.available b = refl
not_busy-no_permission FirmwareUpdateState.waiting_permission b = b
not_busy-no_permission FirmwareUpdateState.installing b = b
not_busy-no_permission FirmwareUpdateState.rebooting b = b
not_busy-no_permission FirmwareUpdateState.validating b = refl
not_busy-no_permission FirmwareUpdateState.failed b = refl

-- One state has no other test.
pub tests_of_state :
    (s : FirmwareUpdateState)
    → ((is_installing s ≡ true → s ≡ FirmwareUpdateState.installing)
        × (is_waiting s ≡ true → s ≡ FirmwareUpdateState.waiting_permission))
      × ((is_checking s ≡ true → s ≡ FirmwareUpdateState.checking)
          × (is_available s ≡ true → s ≡ FirmwareUpdateState.available))
tests_of_state FirmwareUpdateState.idle =
    (((λ h. absurd (cc h)), (λ h. absurd (cc h))), ((λ h. absurd (cc h)), (λ h. absurd (cc h))))
tests_of_state FirmwareUpdateState.checking =
    (((λ h. absurd (cc h)), (λ h. absurd (cc h))), ((λ h. refl), (λ h. absurd (cc h))))
tests_of_state FirmwareUpdateState.up_to_date =
    (((λ h. absurd (cc h)), (λ h. absurd (cc h))), ((λ h. absurd (cc h)), (λ h. absurd (cc h))))
tests_of_state FirmwareUpdateState.available =
    (((λ h. absurd (cc h)), (λ h. absurd (cc h))), ((λ h. absurd (cc h)), (λ h. refl)))
tests_of_state FirmwareUpdateState.waiting_permission =
    (((λ h. absurd (cc h)), (λ h. refl)), ((λ h. absurd (cc h)), (λ h. absurd (cc h))))
tests_of_state FirmwareUpdateState.installing =
    (((λ h. refl), (λ h. absurd (cc h))), ((λ h. absurd (cc h)), (λ h. absurd (cc h))))
tests_of_state FirmwareUpdateState.rebooting =
    (((λ h. absurd (cc h)), (λ h. absurd (cc h))), ((λ h. absurd (cc h)), (λ h. absurd (cc h))))
tests_of_state FirmwareUpdateState.validating =
    (((λ h. absurd (cc h)), (λ h. absurd (cc h))), ((λ h. absurd (cc h)), (λ h. absurd (cc h))))
tests_of_state FirmwareUpdateState.failed =
    (((λ h. absurd (cc h)), (λ h. absurd (cc h))), ((λ h. absurd (cc h)), (λ h. absurd (cc h))))

-- A coordinator that holds no permission, is not ready and offers nothing.
pub quiet-IsCoordinator :
    (c : Coordinator)
    → is_available c.status.state ≡ false
    → holds_permission c.status.state ≡ false
    → c.status.installation_allowed ≡ false
    → c.installation_ready ≡ false
    → c.permission_correlation_id ≡ 0
    → IsCoordinator c
quiet-IsCoordinator c a p l r i = record {
  allowed = l ∙ sym a;
  ready = λ h. absurd (cc (h, r));
  permission = ground (arith, i, p);
  offer = λ h. absurd (cc (h, ap₂ ◌||◌ a p));
}

pub no_permission :
    (c : Coordinator)
    → IsCoordinator c
    → holds_permission c.status.state ≡ false
    → (c.permission_correlation_id ≡ 0) × (c.installation_ready ≡ false)
no_permission c v h = (
  (==_iff c.permission_correlation_id 0).0 (v.permission ∙ ap not h),
  elim (Bool-cases c.installation_ready) [
    | inl r ↦ absurd (cc (h, ap holds_permission ((tests_of_state c.status.state).0.0 (v.ready r))))
    | inr r ↦ r
  ],
)

new_state :
    (b : Bool)
    → let s = if b then FirmwareUpdateState.idle else FirmwareUpdateState.failed in
      (is_available s ≡ false) × (holds_permission s ≡ false)
new_state true = (refl, refl)
new_state false = (refl, refl)

pub new_coordinator-IsCoordinator : (own : Text) → IsCoordinator (new_coordinator own)
unfolding new_coordinator
new_coordinator-IsCoordinator own =
    let (a, p) = new_state (has_value (parse own)) in
    quiet-IsCoordinator (new_coordinator own) a p refl refl refl

pub begin_validation-IsCoordinator :
    (own : Text) → IsCoordinator (begin_validation (new_coordinator own))
unfolding begin_validation new_coordinator
begin_validation-IsCoordinator own =
    quiet-IsCoordinator (begin_validation (new_coordinator own)) refl refl refl refl refl

pub begin_check-IsCoordinator :
    (c : Coordinator) → IsCoordinator c → IsCoordinator (begin_check c).1
unfolding begin_check refresh_installation_allowed
begin_check-IsCoordinator c v =
    if_holds (λ (p : Bool × Coordinator). IsCoordinator p.1)
      (not (has_value c.current_semantic_version) || is_busy c.status.state) (λ b. v)
      (λ b.
        let (i, r) =
          no_permission c v (not_busy-no_permission c.status.state (ground (arith, b))) in
        quiet-IsCoordinator _ refl refl refl r i)

pub fail-IsCoordinator : (error : String) (c : Coordinator) → IsCoordinator (fail error c)
unfolding fail refresh_installation_allowed
fail-IsCoordinator error c = quiet-IsCoordinator (fail error c) refl refl refl refl refl

pub act_on-IsCoordinator :
    (d : FirmwareImageDescriptor) (current : SemanticVersion) (c : Coordinator)
    (decision : FirmwareDescriptorDecision)
    → copy_bounded d.version ≡ d.version
    → c.current_semantic_version ≡ some current
    → c.permission_correlation_id ≡ 0
    → c.installation_ready ≡ false
    → (decision ≡ FirmwareDescriptorDecision.newer
        → (candidate : SemanticVersion) × ((parse d.version ≡ some candidate)
            × (is_newer candidate current ≡ true)))
    → IsCoordinator (act_on decision d c)
unfolding act_on refresh_installation_allowed
act_on-IsCoordinator d current c FirmwareDescriptorDecision.newer fits e i r n =
    let (candidate, (p, m)) = n refl in
    record {
      allowed = refl;
      ready = λ h. absurd (cc (h, r));
      permission = ground (arith, i);
      offer = λ h. record {
        current = current;
        available = candidate;
        is_current = e;
        is_available_version = p;
        text = ap parse fits ∙ p;
        newer = m;
      };
    }
act_on-IsCoordinator d current c FirmwareDescriptorDecision.not_newer fits e i r n =
    quiet-IsCoordinator _ refl refl refl r i
act_on-IsCoordinator d current c FirmwareDescriptorDecision.invalid_version fits e i r n =
    fail-IsCoordinator _ c
act_on-IsCoordinator d current c FirmwareDescriptorDecision.wrong_project fits e i r n =
    fail-IsCoordinator _ c
act_on-IsCoordinator d current c FirmwareDescriptorDecision.wrong_target fits e i r n =
    fail-IsCoordinator _ c
