-- ===== src/Core/Control.antt =====
-- components/smoker_core/src/control.cpp: the on/off request.
use smoker_firmware.Common.{◌≡◌, refl, not, Option, none, some, arith, if◌then◌else◌, holds}
use smoker_firmware.Common.Float32
use smoker_firmware.Common.Float32.{hundred}
use smoker_firmware.Core.Domain.{Temperature, temp_ge, HeaterDemand, off, from_percent}

-- `value_or`
abbrev pub value_or_off : Option HeaterDemand → HeaterDemand
value_or_off none = off
value_or_off (some d) = d

pub calculate_heater_demand : Option Temperature → Option Temperature → HeaterDemand
calculate_heater_demand none target = off
calculate_heater_demand (some t) none = off
calculate_heater_demand (some t) (some target) =
    if temp_ge t target then off else value_or_off (from_percent hundred)

-- The request is 100 percent when both temperatures are present and the chamber is not at or above
-- the target, and 0 percent in every other case.
pub calculate_heater_demand_lem :
    (t target : Option Temperature)
    → calculate_heater_demand t target ≡ (
        if holds t (λ a. holds target (λ b. not (temp_ge a b)))
        then record { percent = hundred }
        else off)
unfolding calculate_heater_demand from_percent Float32.is_finite Float32.lt Float32.rank
calculate_heater_demand_lem none target = refl
calculate_heater_demand_lem (some t) none = refl
calculate_heater_demand_lem (some t) (some target) = ground arith
