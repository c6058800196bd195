-- ===== src/Exchange/Copy.antt =====
-- components/smoker_app/src/snapshot_exchange.cpp: what is read from a slot is what was written.
use smoker_firmware.Common.{ℕ, ◌≤◌, ◌≡◌, ◌∙◌, true, arith, length, take-copy_to, length-copy_to}
use smoker_firmware.App.Commands.{command_result_capacity}
use smoker_firmware.App.Snapshot.{SnapshotView}
use smoker_firmware.Exchange.{Slot, Exchange, fits, write_slot, view_of}
use smoker_firmware.Exchange.Steps.{IsSized}

-- The snapshot has room in vectors of lengths `p` and `a`.
abbrev pub Fits : ℕ → ℕ → SnapshotView → Type 0
Fits p a v =
    (length v.probes ≤ p)
    × ((length v.active_alarms ≤ a) × (length v.command_results ≤ command_result_capacity))

pub fits-Fits :
    (v : SnapshotView) (e : Exchange) (p a : ℕ)
    → IsSized p a (e.slots 0)
    → fits v e ≡ true
    → Fits p a v
fits-Fits v e p a z h = ground arith

-- The view of a slot after the copy is the snapshot, whatever the slot held.
pub view_of-write_slot :
    (v : SnapshotView) (x : Slot) (p a : ℕ)
    → IsSized p a x
    → Fits p a v
    → view_of (write_slot v x) ≡ v
unfolding view_of write_slot
view_of-write_slot v x p a z f =
    let ps = take-copy_to v.probes x.probes (omega (arith, z.0, f.0)) in
    let als = take-copy_to v.active_alarms x.alarms (omega (arith, z.1.0, f.1.0)) in
    let cs = take-copy_to v.command_results x.command_results (omega (arith, z.1.1, f.1.1)) in
    λ i. record v { probes = ps i; active_alarms = als i; command_results = cs i }

pub write_slot-IsSized :
    (v : SnapshotView) (x : Slot) (p a : ℕ)
    → IsSized p a x
    → Fits p a v
    → IsSized p a (write_slot v x)
unfolding write_slot
write_slot-IsSized v x p a z f = (
  length-copy_to v.probes x.probes (omega (arith, z.0, f.0)) ∙ z.0,
  (
    length-copy_to v.active_alarms x.alarms (omega (arith, z.1.0, f.1.0)) ∙ z.1.0,
    length-copy_to v.command_results x.command_results (omega (arith, z.1.1, f.1.1)) ∙ z.1.1,
  ),
)
