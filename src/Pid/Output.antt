-- ===== src/Pid/Output.antt =====
-- components/smoker_platform/src/pid_chamber_controller.cpp: what a controller may ask of the heater.
use smoker_firmware.Common.{
  if_holds, ◌≡◌, ◌↔◌, subst, refl, sym, ap, ◌∙◌, Bool, true, false, not, ◌||◌, Bool-cases, inl, inr,
  Option, none, some, arith, if◌then◌else◌,
}
use mathlib.Core.Option.{some-injective}
use smoker_firmware.Common.Float32
use smoker_firmware.Common.Float32.{Float32, zero_float, hundred}
use smoker_firmware.Core.Domain.{Temperature, HeaterDemand, from_percent}
use smoker_firmware.Pid.{
  PidControllerConfiguration, common_values_are_valid, valid_pid_controller_configuration,
  PidControllerBackend, PidChamberController, new_controller, refuses_output, demand_of, error_of,
  backend_after, request, reset,
}

-- The demand lies within the bounds of the configuration.
abbrev pub IsWithin : PidControllerConfiguration → HeaterDemand → Type 0
IsWithin c d =
    (Float32.le c.minimum_output_percent d.percent ≡ true)
    × (Float32.le d.percent c.maximum_output_percent ≡ true)

le_trans : (a b c : Float32) → Float32.le a b ≡ true → Float32.le b c ≡ true → Float32.le a c ≡ true
unfolding Float32.le
le_trans a b c h k = ground (arith, h, k)

le_of_not-lt :
    (a b : Float32)
    → Float32.is_finite a ≡ true
    → Float32.is_finite b ≡ true
    → Float32.lt a b ≡ false
    → Float32.le b a ≡ true
le_of_not-lt a b ha hb h = ground (arith, Float32.lt-not-le a b ha hb, h)

not-lt_of_le :
    (a b : Float32)
    → Float32.is_finite a ≡ true
    → Float32.is_finite b ≡ true
    → Float32.le b a ≡ true
    → Float32.lt a b ≡ false
not-lt_of_le a b ha hb h = Float32.lt-not-le a b ha hb ∙ ap not h

-- The bounds of a valid configuration.
record HasBounds (c : PidControllerConfiguration) : Type 0 where
  finite_minimum : Float32.is_finite c.minimum_output_percent ≡ true
  finite_maximum : Float32.is_finite c.maximum_output_percent ≡ true
  from_zero : Float32.le zero_float c.minimum_output_percent ≡ true
  to_hundred : Float32.le c.maximum_output_percent hundred ≡ true

valid-HasBounds :
    (c : PidControllerConfiguration) → valid_pid_controller_configuration c ≡ true → HasBounds c
unfolding valid_pid_controller_configuration common_values_are_valid
valid-HasBounds c v = record {
  finite_minimum = ground (arith, v);
  finite_maximum = ground (arith, v);
  from_zero = ground (arith, v);
  to_hundred = ground (arith, v);
}

-- A percentage is what `from_percent` accepts.
from_percent-between :
    (x : Float32)
    → Float32.is_finite x ≡ true
    → Float32.le zero_float x ≡ true
    → Float32.le x hundred ≡ true
    → from_percent x ≡ some (record { percent = x })
unfolding from_percent Float32.is_finite
from_percent-between x f l h =
    rw (f, not-lt_of_le x zero_float f refl l, not-lt_of_le hundred x refl f h) refl

-- An output within the bounds of a valid configuration is a percentage.
output_percent :
    (c : PidControllerConfiguration) (x : Float32)
    → valid_pid_controller_configuration c ≡ true
    → Float32.is_finite x ≡ true
    → Float32.lt x c.minimum_output_percent ≡ false
    → Float32.lt c.maximum_output_percent x ≡ false
    → (from_percent x ≡ some (record { percent = x })) × IsWithin c (record { percent = x })
output_percent c x v f l h =
    let b = valid-HasBounds c v in
    let low = le_of_not-lt x c.minimum_output_percent f b.finite_minimum l in
    let high = le_of_not-lt c.maximum_output_percent x b.finite_maximum f h in
    (
      from_percent-between x f (le_trans zero_float c.minimum_output_percent x b.from_zero low)
          (le_trans x c.maximum_output_percent hundred high b.to_hundred),
      (low, high),
    )

module _ {B : Type 0} (calls : PidControllerBackend B) (minus : Float32 → Float32 → Float32) where
  -- The backend has computed this demand, and it is a finite number within the bounds.
  abbrev pub IsComputed : PidControllerConfiguration → HeaterDemand → Bool × Float32 × B → Type 0
  IsComputed c d r =
      (r.0 ≡ true) × ((r.1 ≡ d.percent) × ((Float32.is_finite d.percent ≡ true) × IsWithin c d))

  passes :
      (c : PidControllerConfiguration) (ok : Bool) (x : Float32)
      → refuses_output calls minus c ok x ≡ false
      → (ok ≡ true)
        × ((Float32.is_finite x ≡ true)
            × ((Float32.lt x c.minimum_output_percent ≡ false)
                × (Float32.lt c.maximum_output_percent x ≡ false)))
  unfolding refuses_output
  passes c ok x h = (ground (arith, h), (ground (arith, h), (ground (arith, h), ground (arith, h))))

  demand_of-some :
      (c : PidControllerConfiguration) (d : HeaterDemand) (r : Bool × Float32 × B)
      → valid_pid_controller_configuration c ≡ true
      → demand_of calls minus c r ≡ some d
      → IsComputed c d r
  unfolding demand_of
  demand_of-some c d (ok, x, b) v h = elim (Bool-cases (refuses_output calls minus c ok x)) [
    | inl e ↦ absurd (cc (h, e))
    | inr e ↦
        let (o, p) = passes c ok x e in
        let (f, q) = p in
        let (accepted, within) = output_percent c x v f q.0 q.1 in
        let same : record { percent = x } ≡ d =
          some-injective (record { percent = x }) d
            (sym accepted ∙ sym (ap (λ b. if b then none else from_percent x) e) ∙ h) in
        subst (λ y. IsComputed c y (ok, x, b)) same (o, (refl, (f, within)))
  ]

  some-demand_of :
      (c : PidControllerConfiguration) (d : HeaterDemand) (r : Bool × Float32 × B)
      → valid_pid_controller_configuration c ≡ true
      → IsComputed c d r
      → demand_of calls minus c r ≡ some d
  unfolding demand_of refuses_output
  some-demand_of c d (ok, x, b) v (o, (e, (f, (low, high)))) =
      let bounds = valid-HasBounds c v in
      let l = not-lt_of_le d.percent c.minimum_output_percent f bounds.finite_minimum low in
      let h = not-lt_of_le c.maximum_output_percent d.percent bounds.finite_maximum f high in
      let accepted = (output_percent c d.percent v f l h).0 in
      let passed : refuses_output calls minus c true d.percent ≡ false = ground (arith, f, l, h) in
      (λ i. if refuses_output calls minus c (o i) (e i) then none else from_percent (e i))
      ∙ ap (λ q. if q then none else from_percent d.percent) passed
      ∙ accepted

  -- A controller as its constructor and its calls leave it.
  pub data Reach (c : PidControllerConfiguration) : PidChamberController B → Type 0 where
    made : (b : B) → Reach c (new_controller calls minus c b)
    asked :
        {p : PidChamberController B} (t target : Temperature)
        → Reach c p
        → Reach c (request calls minus t target p).1
    restarted : {p : PidChamberController B} → Reach c p → Reach c (reset calls minus p).1

  record IsController (c : PidControllerConfiguration) (p : PidChamberController B) : Type 0 where
    same : p.configuration ≡ c
    valid : p.initialized ≡ true → valid_pid_controller_configuration c ≡ true

  controller :
      {c : PidControllerConfiguration} {p : PidChamberController B} → Reach c p → IsController c p
  unfolding new_controller request reset
  controller {c} (made b) =
      if_holds (IsController c) (valid_pid_controller_configuration c)
        (λ e. record { same = refl; valid = λ h. e })
        (λ e. record { same = refl; valid = λ h. absurd (cc h) })
  controller {c} (asked {p} t target r) =
      let v = controller r in
      if_holds (λ (q : Option HeaterDemand × PidChamberController B). IsController c q.1)
        (not p.initialized || not (Float32.is_finite (error_of calls minus t target))) (λ e. v)
        (λ e. record { same = v.same; valid = v.valid })
  controller {c} (restarted {p} r) =
      let v = controller r in
      if_holds (λ (q : Bool × PidChamberController B). IsController c q.1) p.initialized
        (λ e. record { same = v.same; valid = v.valid }) (λ e. v)

  -- Whatever the backend does, a controller answers with a demand exactly if it is initialized, the
  -- error is finite, and the backend has computed that demand as a finite number within the bounds of
  -- the configuration, which lie between 0 and 100 percent; it has no answer in all other cases.
  pub request_iff :
      {c : PidControllerConfiguration} {p : PidChamberController B}
      → Reach c p
      → (t target : Temperature) (d : HeaterDemand)
      → ((request calls minus t target p).0 ≡ some d) ↔ (
          (p.initialized ≡ true)
          × ((Float32.is_finite (error_of calls minus t target) ≡ true)
              × IsComputed c d (calls.compute (error_of calls minus t target) p.backend)))
  unfolding request
  request_iff {c} {p} reached t target d =
      let v = controller reached in
      let r = calls.compute (error_of calls minus t target) p.backend in
      (
        (λ h.
            elim (Bool-cases
              (not p.initialized || not (Float32.is_finite (error_of calls minus t target)))) [
                | inl e ↦ absurd (cc (h, e))
                | inr e ↦ (
                  ground (arith, e),
                  (
                    ground (arith, e),
                    demand_of-some c d r (v.valid (ground (arith, e))) (
                        sym (ap (λ k. demand_of calls minus k r) v.same)
                        ∙ sym (
                            ap
                              (λ (q : Bool).
                                (if◌then◌else◌ {A = Option HeaterDemand × PidChamberController B} q
                                  (none, p)
                                  (
                                    demand_of calls minus p.configuration r,
                                    record p { backend = backend_after calls minus r },
                                  )).0)
                              e)
                        ∙ h),
                  ),
                )
              ]),
        (λ (i, (f, w)).
            rw (i, f)
              (ap (λ k. demand_of calls minus k r) v.same ∙ some-demand_of c d r (v.valid i) w)),
      )
