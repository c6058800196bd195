-- ===== src/Core/Timer/Laws.antt =====
-- components/smoker_core/src/timer.cpp: what holds of a timer between two updates.
use smoker_firmware.Common.{
  List, Bool, true, false, Option, none, some, arith, has_value, ◌≡◌, ◌↔◌, refl, ◌⊎◌, inl, inr,
  Bool-cases,
}
use smoker_firmware.Common.Int.{
  pos, ltb_ℤ, leb_ℤ, min_ℤ, ◌-ℤ◌, ◌+ℤ◌, ◌≤ℤ◌, -ℤ_parts, +ℤ_parts, eq_of_parts,
}
use smoker_firmware.Core.Domain.{
  Temperature, ProbeReading, StageTimer, TimerRuntimeState, TimePoint, Duration, new_timer,
}
use smoker_firmware.Core.Timer.{
  freeze_from, is_valid_timer_configuration, advance_from, advance, update_stage_timer,
  freeze_stage_timer,
}

-- A timer has a start time exactly when it has started, completes only after its start, and its
-- elapsed time lies between zero and the duration, which it reaches when it completes.
pub record IsConsistent (c : StageTimer) (s : TimerRuntimeState) : Type 0 where
  pub start_known : has_value s.started_at ≡ s.started
  pub completed_started : s.completed ≡ true → s.started ≡ true
  pub nonneg : pos 0 ≤ℤ s.elapsed
  pub capped : s.elapsed ≤ℤ c.duration
  pub full : s.completed ≡ true → s.elapsed ≡ c.duration

pub new_timer-IsConsistent :
    (c : StageTimer) → is_valid_timer_configuration c ≡ true → IsConsistent c new_timer
unfolding is_valid_timer_configuration
new_timer-IsConsistent c v = ground arith

-- The elapsed time that an update stores.
elapsed_bounds :
    (d at now : Duration)
    → pos 0 ≤ℤ d
    → ltb_ℤ now at ≡ false
    → (pos 0 ≤ℤ min_ℤ (now -ℤ at) d)
      × (min_ℤ (now -ℤ at) d ≤ℤ d)
      × (leb_ℤ d (min_ℤ (now -ℤ at) d) ≡ true → min_ℤ (now -ℤ at) d ≡ d)
elapsed_bounds d at now h e = elim (Bool-cases (ltb_ℤ d (now -ℤ at))) [
  | inl less ↦ rw less (h, omega arith, λ _. refl)
  | inr more ↦ rw more (
    ground (arith, -ℤ_parts now at),
    ground arith,
    λ full. ground (arith, eq_of_parts (now -ℤ at) d),
  )
]

advance_from-IsConsistent :
    (start : Option TimePoint) (c : StageTimer) (s : TimerRuntimeState) (now : TimePoint) (b : Bool)
    → s.started_at ≡ start
    → s.started ≡ true
    → s.completed ≡ false
    → IsConsistent c s
    → IsConsistent c (advance_from start c s now b).0
unfolding advance_from
advance_from-IsConsistent none c s now b e started open_ v = v
advance_from-IsConsistent (some at) c s now b e started open_ v = elim (Bool-cases (ltb_ℤ now at)) [
  | inl early ↦ rw early v
  | inr late ↦
      let (low, high, full) = elapsed_bounds c.duration at now (omega arith) late in
      rw late (record {
        start_known = v.start_known;
        completed_started = λ _. started;
        nonneg = low;
        capped = high;
        full = λ e. elim (Bool-cases (leb_ℤ c.duration (min_ℤ (now -ℤ at) c.duration))) [
          | inl done ↦ full done
          | inr not_done ↦ ground (arith, v.full)
        ];
      })
]

advance-IsConsistent :
    (c : StageTimer) (s : TimerRuntimeState) (now : TimePoint) (b : Bool)
    → s.started ≡ true
    → s.completed ≡ false
    → IsConsistent c s
    → IsConsistent c (advance c s now b).0
unfolding advance
advance-IsConsistent c s now b = advance_from-IsConsistent s.started_at c s now b refl

pub update_stage_timer-IsConsistent :
    (c : StageTimer) (s : TimerRuntimeState) (now : TimePoint) (chamber : Option Temperature)
    (readings : List ProbeReading)
    → IsConsistent c s
    → IsConsistent c (update_stage_timer c s now chamber readings).0
unfolding update_stage_timer
update_stage_timer-IsConsistent c s now chamber readings v = ground (
  arith,
  advance-IsConsistent c s now false,
  advance-IsConsistent c (record s { started = true; started_at = some now; elapsed = pos 0 }) now
      true,
)

-- A completed timer is left alone, and reports nothing again.
update_stage_timer_completed :
    (c : StageTimer) (s : TimerRuntimeState) (now : TimePoint) (chamber : Option Temperature)
    (readings : List ProbeReading)
    → s.completed ≡ true
    → update_stage_timer c s now chamber readings
      ≡ (s, record { started_now = false; completed_now = false })
unfolding update_stage_timer
update_stage_timer_completed c s now chamber readings h = rw h

-- A running timer completes at an update exactly when its duration has passed since its start.
pub completed_now_iff :
    (c : StageTimer) (s : TimerRuntimeState) (at now : TimePoint) (chamber : Option Temperature)
    (readings : List ProbeReading)
    → is_valid_timer_configuration c ≡ true
    → s.started ≡ true
    → s.completed ≡ false
    → s.started_at ≡ some at
    → ((update_stage_timer c s now chamber readings).1.completed_now ≡ true)
      ↔ (at +ℤ c.duration ≤ℤ now)
unfolding update_stage_timer advance is_valid_timer_configuration
completed_now_iff c s at now chamber readings v st co sa =
    ground (arith, -ℤ_parts now at, +ℤ_parts at c.duration)

-- Consistent, and completed exactly where the whole duration has elapsed.
pub record IsExact (c : StageTimer) (s : TimerRuntimeState) : Type 0 where
  pub consistent : IsConsistent c s
  pub complete : s.elapsed ≡ c.duration → s.completed ≡ true

advance_from_full :
    (start : Option TimePoint) (c : StageTimer) (s : TimerRuntimeState) (now : TimePoint) (b : Bool)
    → (s.elapsed ≡ c.duration → s.completed ≡ true)
    → (advance_from start c s now b).0.elapsed ≡ c.duration
    → (advance_from start c s now b).0.completed ≡ true
unfolding advance_from
advance_from_full none c s now b v = v
advance_from_full (some at) c s now b v = elim (Bool-cases (ltb_ℤ now at)) [
  | inl early ↦ rw early v
  | inr late ↦ rw late (λ e. ground (arith, e))
]

update_stage_timer_full :
    (c : StageTimer) (s : TimerRuntimeState) (now : TimePoint) (chamber : Option Temperature)
    (readings : List ProbeReading)
    → is_valid_timer_configuration c ≡ true
    → (s.elapsed ≡ c.duration → s.completed ≡ true)
    → (update_stage_timer c s now chamber readings).0.elapsed ≡ c.duration
    → (update_stage_timer c s now chamber readings).0.completed ≡ true
unfolding update_stage_timer advance
update_stage_timer_full c s now chamber readings valid v =
    let fresh : TimerRuntimeState = record s {
      started = true;
      started_at = some now;
      elapsed = pos 0;
    } in
    ground (
      arith,
      v,
      valid,
      advance_from_full s.started_at c s now false v,
      advance_from_full (some now) c fresh now true,
    )

-- An update keeps a timer in order: it has a start time exactly when it has started, its elapsed time
-- lies between zero and the duration, and it has completed exactly when the whole duration has
-- elapsed.
pub update_stage_timer-IsExact :
    (c : StageTimer) (s : TimerRuntimeState) (now : TimePoint) (chamber : Option Temperature)
    (readings : List ProbeReading)
    → is_valid_timer_configuration c ≡ true
    → IsExact c s
    → IsExact c (update_stage_timer c s now chamber readings).0
update_stage_timer-IsExact c s now chamber readings valid v = record {
  consistent = update_stage_timer-IsConsistent c s now chamber readings v.consistent;
  complete = update_stage_timer_full c s now chamber readings valid v.complete;
}

-- What the stop of a session freezes is what an update at the same moment shows, but not cut off at
-- the duration: of a running timer that has not completed, at a moment not before its start, the
-- update shows the frozen time or the duration, whichever is less, and completes the timer exactly
-- where the frozen time has reached the duration.
pub freeze_stage_timer-update_stage_timer :
    (c : StageTimer) (s : TimerRuntimeState) (at now : TimePoint) (chamber : Option Temperature)
    (readings : List ProbeReading)
    → is_valid_timer_configuration c ≡ true
    → s.started ≡ true
    → s.completed ≡ false
    → s.started_at ≡ some at
    → at ≤ℤ now
    → ((update_stage_timer c s now chamber readings).0.elapsed
        ≡ min_ℤ (freeze_stage_timer s now).elapsed c.duration)
      × (((update_stage_timer c s now chamber readings).0.completed ≡ true)
          ↔ (c.duration ≤ℤ (freeze_stage_timer s now).elapsed))
      × ((freeze_stage_timer s now).elapsed ≡ now -ℤ at)
unfolding update_stage_timer advance freeze_stage_timer
freeze_stage_timer-update_stage_timer c s at now chamber readings v st co sa order =
    ground (arith, -ℤ_parts now at)

-- Freezing at the moment of an update changes nothing.
pub freeze_stage_timer_updated :
    (c : StageTimer) (s : TimerRuntimeState) (now : TimePoint) (chamber : Option Temperature)
    (readings : List ProbeReading)
    → is_valid_timer_configuration c ≡ true
    → let t = (update_stage_timer c s now chamber readings).0 in freeze_stage_timer t now ≡ t
unfolding update_stage_timer advance freeze_stage_timer
freeze_stage_timer_updated c s now chamber readings v = ground arith

-- What freezing may change: the elapsed time of a timer that runs, to one that is not negative.
pub record IsFrozen (t u : TimerRuntimeState) : Type 0 where
  pub same_started : u.started ≡ t.started
  pub same_completed : u.completed ≡ t.completed
  pub same_start : u.started_at ≡ t.started_at
  pub changed :
      (u.elapsed ≡ t.elapsed) ⊎ ((t.completed ≡ false) × (t.started ≡ true) × (pos 0 ≤ℤ u.elapsed))

freeze_from-IsFrozen :
    (start : Option TimePoint) (t : TimerRuntimeState) (now : TimePoint)
    → t.completed ≡ false
    → t.started ≡ true
    → IsFrozen t (freeze_from start t now)
unfolding freeze_from
freeze_from-IsFrozen none t now open_ on = ground arith
freeze_from-IsFrozen (some at) t now open_ on = ground (arith, -ℤ_parts now at)

pub freeze_stage_timer-IsFrozen :
    (t : TimerRuntimeState) (now : TimePoint) → IsFrozen t (freeze_stage_timer t now)
unfolding freeze_stage_timer
freeze_stage_timer-IsFrozen t now = ground (arith, freeze_from-IsFrozen t.started_at t now)
