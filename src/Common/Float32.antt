-- ===== src/Common/Float32.antt =====
-- C++ `float` (IEEE 754 binary32) as far as the code uses it without arithmetic: the sign bit, the
-- other 31 bits, the test for finite values and the comparisons. The 31 bits of a number that is
-- not negative are ordered as the number is.
use Prim.Native.Nat.{ℕ, ◌+◌, ◌-◌, ◌^◌}
use mathlib.Core.Path.{◌≡◌}
use mathlib.Core.Bool.{Bool, true, false, not, ◌&&◌}
use native.Mathlib.Omega.{arith}
use smoker_firmware.Common.Tests.{ltb, leb, if◌then◌else◌}

pub record Float32 : Type 0 where
  pub negative : Bool
  pub magnitude : ℕ

-- The magnitude of an infinity; a larger one is a NaN.
abbrev pub infinity_bits : ℕ
infinity_bits = 0x7f800000

-- `std::isfinite`
unfoldable pub is_finite : Float32 → Bool
is_finite x = ltb x.magnitude infinity_bits

unfoldable pub is_nan : Float32 → Bool
is_nan x = ltb infinity_bits x.magnitude

-- The two zeros have one rank.
unfoldable pub rank : Float32 → ℕ
rank x = if x.negative then 2 ^ 31 - x.magnitude else 2 ^ 31 + x.magnitude

-- `a < b`, false at a NaN
unfoldable pub lt : Float32 → Float32 → Bool
unfolding is_nan
lt a b = not (is_nan a) && not (is_nan b) && ltb (rank a) (rank b)

-- `a <= b`, false at a NaN
unfoldable pub le : Float32 → Float32 → Bool
unfolding is_nan
le a b = not (is_nan a) && not (is_nan b) && leb (rank a) (rank b)

-- 0.0F
abbrev pub zero_float : Float32
zero_float = record { negative = false; magnitude = 0 }

-- 100.0F
abbrev pub hundred : Float32
hundred = record { negative = false; magnitude = 0x42c80000 }

-- Between finite values exactly one of `a < b` and `b <= a` holds.
pub lt-not-le : (a b : Float32) → is_finite a ≡ true → is_finite b ≡ true → lt a b ≡ not (le b a)
unfolding lt le is_finite
lt-not-le a b ha hb = ground arith
