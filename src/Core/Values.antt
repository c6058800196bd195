-- ===== src/Core/Values.antt =====
-- components/smoker_core: what the checked constructors of temperatures and demands promise.
use smoker_firmware.Common.{◌≡◌, true, not, some, arith}
use smoker_firmware.Common.Float32
use smoker_firmware.Common.Float32.{Float32, zero_float, hundred, lt-not-le}
use smoker_firmware.Core.Domain.{
  Temperature, from_celsius, temp_gt, temp_le, HeaterDemand, from_percent,
}

from_celsius-is_finite :
    (x : Float32) {t : Temperature} → from_celsius x ≡ some t → Float32.is_finite t.celsius ≡ true
unfolding from_celsius
from_celsius-is_finite x h = ground arith

-- Of two temperatures made by `from_celsius` one exceeds the other exactly when it is not at or
-- below it, so a comparison against a limit decides.
pub temp_gt-temp_le :
    (x y : Float32) (a b : Temperature)
    → from_celsius x ≡ some a
    → from_celsius y ≡ some b
    → temp_gt a b ≡ not (temp_le a b)
unfolding temp_gt temp_le
temp_gt-temp_le x y a b h k =
    lt-not-le b.celsius a.celsius (from_celsius-is_finite y k) (from_celsius-is_finite x h)

-- A demand made by `from_percent` is the given number, finite and between 0 and 100.
pub from_percent_bounds :
    (x : Float32) (d : HeaterDemand)
    → from_percent x ≡ some d
    → (d.percent ≡ x)
      × (Float32.is_finite x ≡ true)
      × (Float32.le zero_float x ≡ true)
      × (Float32.le x hundred ≡ true)
unfolding from_percent Float32.is_finite Float32.lt Float32.le Float32.rank
from_percent_bounds x d h = ground arith
