-- ===== src/Firmware/Coordinator/Start.antt =====
-- components/smoker_platform/src/firmware_update_support.cpp with components/smoker_app: when an
-- installation may begin.
use smoker_firmware.Common.{
  ◌≡◌, refl, sym, ap, ◌∙◌, List, Bool, true, false, not, ◌||◌, Bool-cases, inl, inr, Option, none,
  some, arith, if◌then◌else◌, ◌==◌, find_if,
}
use smoker_firmware.Core.Domain.{SafetyLimits, FoodProbeConfig}
use smoker_firmware.App.Commands.{CommandResult, Ports}
use smoker_firmware.App.State.{App, session_running}
use smoker_firmware.App.Snapshot.{SnapshotView, snapshot_view, snapshot_view-kept}
use smoker_firmware.App.Reach
use smoker_firmware.App.Reach.{Reach-IsSound}
use smoker_firmware.Firmware.Coordinator.{
  Coordinator, is_waiting, fail, act_on_result, refresh_installation_allowed,
  observe_application_snapshot,
}

-- The result that the permission was asked with.
abbrev pub permission_result : Coordinator → List CommandResult → Option CommandResult
permission_result c results = find_if (λ r. r.correlation_id == c.permission_correlation_id) results

starts_by_result :
    (o : Option CommandResult) (active : Bool) (c : Coordinator)
    → c.installation_ready ≡ false
    → (act_on_result o active c).installation_ready ≡ true
    → (r : CommandResult) × ((o ≡ some r) × ((r.semantic_accepted ≡ true) × (active ≡ true)))
unfolding act_on_result fail refresh_installation_allowed
starts_by_result none active c n h = absurd (cc (n, h))
starts_by_result (some r) active c n h = elim (Bool-cases (not r.semantic_accepted || not active)) [
  | inl e ↦ absurd (cc (h, e))
  | inr e ↦ (r, (refl, (ground (arith, e), ground (arith, e))))
]

starts_by_snapshot :
    (s : SnapshotView) (c : Coordinator)
    → c.installation_ready ≡ false
    → (observe_application_snapshot s c).installation_ready ≡ true
    → (r : CommandResult) × ((permission_result c s.command_results ≡ some r)
        × ((r.semantic_accepted ≡ true) × (s.firmware_update_active ≡ true)))
unfolding observe_application_snapshot
starts_by_snapshot s c n h = elim (Bool-cases (is_waiting c.status.state)) [
  | inl e ↦ starts_by_result (permission_result c s.command_results) s.firmware_update_active c n (
      sym (
        ap
          (λ b.
            (if not b
              then c
              else act_on_result (permission_result c s.command_results) s.firmware_update_active
                  c).installation_ready)
          e)
      ∙ h)
  | inr e ↦ absurd (cc (n, h, e))
]

-- With a snapshot of any state that the application reaches: if it makes an installation ready to
-- begin, then the application has a result under the permission's id, the first of them is an
-- acceptance, and no session of the application runs.
pub observe-starts :
    {ports : Ports} {limits : SafetyLimits} {cs : List FoodProbeConfig} {a : App}
    → Reach.Reach ports limits cs a
    → (c : Coordinator) → c.installation_ready ≡ false
    → (observe_application_snapshot (snapshot_view a) c).installation_ready ≡ true
    → ((r : CommandResult) × ((permission_result c a.command_results ≡ some r)
          × (r.semantic_accepted ≡ true)))
      × (session_running a.session ≡ false)
observe-starts {a} reached c n h =
    let (r, p) = starts_by_snapshot (snapshot_view a) c n h in
    let (found, q) = p in
    let (update, results) = snapshot_view-kept a in
    (
      (r, (ap (permission_result c) (sym results) ∙ found, q.0)),
      (Reach-IsSound reached).coherent.update_stops (sym update ∙ q.1),
    )
