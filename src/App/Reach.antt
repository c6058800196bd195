-- ===== src/App/Reach.antt =====
-- components/smoker_app: everything that the control task can do with the application, in any order.
use smoker_firmware.Common.{ℕ, List, [], ◌∷◌, true, false, not, none, arith, ◌≡◌, refl, sym, subst}
use smoker_firmware.Core.Domain.{FoodProbeConfig, SafetyLimits}
use smoker_firmware.App.Commands.{Ports, Command}
use smoker_firmware.App.State.{App, record_command_result}
use smoker_firmware.App.Queue.{submit}
use smoker_firmware.App.Queue.Ring.{IsRing}
use smoker_firmware.App.Queue.Kept.{submit-IsRing}
use smoker_firmware.App.Tick.{tick, refresh_snapshot_view_cache}
use smoker_firmware.App.Tick.Stop.{tick-IsRing}
use smoker_firmware.App.Invariant.{Coherent, IsSame, IsSame-Coherent}
use smoker_firmware.App.Invariant.Tick.{tick-IsCoherent}
use smoker_firmware.App.Boot.{add_probes, blank, is_empty, boot}

-- One control task boots the application, submits commands and runs cycles.
pub data Reach (ports : Ports) (limits : SafetyLimits) (configuration : List FoodProbeConfig)
    : App → Type 0 where
  booted : Reach ports limits configuration (boot ports limits configuration)
  submitted :
      {a : App} (m : Command) (id : ℕ)
      → Reach ports limits configuration a
      → Reach ports limits configuration (submit m id a).0
  ticked :
      {a : App}
      → Reach ports limits configuration a
      → Reach ports limits configuration (tick ports a)

pub record IsSound (a : App) : Type 0 where
  pub coherent : Coherent a
  pub ring : IsRing a.queue

-- What the loop over the probes leaves alone.
record IsBlank (limits : SafetyLimits) (a : App) : Type 0 where
  same_limits : a.safety_limits ≡ limits
  no_session : a.session ≡ none
  no_fault : a.active_fault ≡ none
  no_update : a.firmware_update_active ≡ false
  same_queue : a.queue ≡ (blank limits true).queue

add_probes-IsBlank :
    (limits : SafetyLimits) (cs : List FoodProbeConfig) (a : App)
    → IsBlank limits a
    → IsBlank limits (add_probes cs a)
unfolding add_probes
add_probes-IsBlank limits [] a v = v
add_probes-IsBlank limits (c ∷ cs) a v = add_probes-IsBlank limits cs _ (record {
  same_limits = v.same_limits;
  no_session = v.no_session;
  no_fault = v.no_fault;
  no_update = v.no_update;
  same_queue = v.same_queue;
})

blank-IsRing : (limits : SafetyLimits) → IsRing (blank limits true).queue
blank-IsRing limits = record {
  full = refl;
  head_in = omega arith;
  tail_at = refl;
  count_in = omega arith;
  filled = tt;
  last_stop = λ e. absurd (omega arith);
}

blank-Coherent : (limits : SafetyLimits) → Coherent (blank limits true)
blank-Coherent limits = ground arith

boot-IsSound :
    (ports : Ports) (limits : SafetyLimits) (cs : List FoodProbeConfig)
    → IsSound (boot ports limits cs)
unfolding boot refresh_snapshot_view_cache
boot-IsSound ports limits cs =
    let b = blank limits (not (is_empty cs)) in
    let v = add_probes-IsBlank limits cs b (record {
      same_limits = refl;
      no_session = refl;
      no_fault = refl;
      no_update = refl;
      same_queue = refl;
    }) in
    record {
      coherent =
          IsSame-Coherent {a = blank limits true} {b = boot ports limits cs}
            (record {
              limits = v.same_limits;
              session = v.no_session;
              active = v.no_fault;
              update = v.no_update;
            })
            (blank-Coherent limits);
      ring = subst IsRing (sym v.same_queue) (blank-IsRing limits);
    }

submit-IsSame : (m : Command) (id : ℕ) (a : App) → IsSame a (submit m id a).0
unfolding submit record_command_result
submit-IsSame m id a = ground arith

-- In every state that boots, submissions and cycles can reach, no session runs under a fault or
-- during a firmware update, a session in the fault state has its fault still active, its target
-- does not exceed the limit, its timer is consistent, and the queue is a ring of at most 16
-- commands whose last place is for a Stop.
pub Reach-IsSound :
    {ports : Ports} {limits : SafetyLimits} {cs : List FoodProbeConfig} {a : App}
    → Reach ports limits cs a
    → IsSound a
Reach-IsSound {ports} {limits} {cs} booted = boot-IsSound ports limits cs
Reach-IsSound (submitted {a} m id r) =
    let v = Reach-IsSound r in
    record {
      coherent = IsSame-Coherent (submit-IsSame m id a) v.coherent;
      ring = submit-IsRing m id a v.ring;
    }
Reach-IsSound {ports} (ticked {a} r) =
    let v = Reach-IsSound r in
    record { coherent = tick-IsCoherent ports a v.coherent; ring = tick-IsRing ports a v.ring }
