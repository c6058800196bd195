-- ===== src/Pid.antt =====
-- components/smoker_platform/src/pid_chamber_controller.cpp: `PidChamberController`.
pub mod Output
use smoker_firmware.Common.{
  Bool, true, false, not, ◌&&◌, ◌||◌, Option, none, some, if◌then◌else◌, has_value,
}
use smoker_firmware.Common.Float32
use smoker_firmware.Common.Float32.{Float32, zero_float, hundred}
use smoker_firmware.Core.Domain.{Temperature, HeaterDemand, from_percent}

pub data PidCalculationForm : Type 0 where
  positional incremental : PidCalculationForm

pub record PositionalAccumulatedErrorBounds : Type 0 where
  pub minimum : Float32
  pub maximum : Float32

pub record PidControllerConfiguration : Type 0 where
  pub proportional_gain : Float32
  pub integral_gain : Float32
  pub derivative_gain : Float32
  pub minimum_output_percent : Float32
  pub maximum_output_percent : Float32
  pub calculation_form : PidCalculationForm
  pub positional_accumulated_error_bounds : Option PositionalAccumulatedErrorBounds

unfoldable pub common_values_are_valid : PidControllerConfiguration → Bool
unfolding Float32.is_finite Float32.le
common_values_are_valid c =
    Float32.is_finite c.proportional_gain
    && (Float32.is_finite c.integral_gain
        && (Float32.is_finite c.derivative_gain
            && (Float32.is_finite c.minimum_output_percent
                && (Float32.is_finite c.maximum_output_percent
                    && (Float32.le zero_float c.proportional_gain
                        && (Float32.le zero_float c.integral_gain
                            && (Float32.le zero_float c.derivative_gain
                                && (Float32.le zero_float c.minimum_output_percent
                                    && (Float32.le c.maximum_output_percent hundred
                                        && Float32.le c.minimum_output_percent
                                            c.maximum_output_percent)))))))))

unfoldable pub valid_form : PidCalculationForm → Option PositionalAccumulatedErrorBounds → Bool
unfolding Float32.is_finite Float32.le
valid_form PidCalculationForm.positional none = false
valid_form PidCalculationForm.positional (some bounds) =
    Float32.is_finite bounds.minimum
    && (Float32.is_finite bounds.maximum
        && (Float32.le bounds.minimum zero_float
            && (Float32.le zero_float bounds.maximum && Float32.le bounds.minimum bounds.maximum)))
valid_form PidCalculationForm.incremental bounds = not (has_value bounds)

unfoldable pub valid_pid_controller_configuration : PidControllerConfiguration → Bool
unfolding common_values_are_valid valid_form
valid_pid_controller_configuration c =
    if not (common_values_are_valid c)
    then false
    else valid_form c.calculation_form c.positional_accumulated_error_bounds

-- `IPidControllerBackend` over a state of its own.
pub record PidControllerBackend (B : Type 0) : Type 0 where
  pub initialize : PidControllerConfiguration → B → Bool × B
  pub compute : Float32 → B → Bool × Float32 × B
  pub reset_backend : B → Bool × B

pub record PidChamberController (B : Type 0) : Type 0 where
  pub configuration : PidControllerConfiguration
  pub backend : B
  pub initialized : Bool

-- The backend, and the subtraction of floats.
module _ {B : Type 0} (calls : PidControllerBackend B) (minus : Float32 → Float32 → Float32) where
  unfoldable pub new_controller : PidControllerConfiguration → B → PidChamberController B
  unfolding valid_pid_controller_configuration
  new_controller c b =
      if valid_pid_controller_configuration c
      then record {
        configuration = c;
        backend = (calls.initialize c b).1;
        initialized = (calls.initialize c b).0;
      }
      else record { configuration = c; backend = b; initialized = false }

  abbrev pub refuses_output : PidControllerConfiguration → Bool → Float32 → Bool
  unfolding Float32.is_finite Float32.lt
  refuses_output c computed output_percent =
      not computed
      || (not (Float32.is_finite output_percent)
          || (Float32.lt output_percent c.minimum_output_percent
              || Float32.lt c.maximum_output_percent output_percent))

  abbrev pub demand_of : PidControllerConfiguration → Bool × Float32 × B → Option HeaterDemand
  unfolding refuses_output from_percent
  demand_of c (computed, output_percent, b) =
      if refuses_output c computed output_percent then none else from_percent output_percent

  abbrev pub error_of : Temperature → Temperature → Float32
  error_of chamber_temperature chamber_target =
      minus chamber_target.celsius chamber_temperature.celsius

  abbrev pub backend_after : Bool × Float32 × B → B
  backend_after (computed, output_percent, b) = b

  unfoldable pub request :
      Temperature
      → Temperature
      → PidChamberController B
      → Option HeaterDemand × PidChamberController B
  unfolding demand_of Float32.is_finite
  request chamber_temperature chamber_target c =
      if not c.initialized || not (Float32.is_finite (error_of chamber_temperature chamber_target))
      then (none, c)
      else (
        demand_of c.configuration
            (calls.compute (error_of chamber_temperature chamber_target) c.backend),
        record c {
          backend =
              backend_after (calls.compute (error_of chamber_temperature chamber_target) c.backend);
        },
      )

  unfoldable pub reset : PidChamberController B → Bool × PidChamberController B
  reset c =
      if c.initialized
      then (
        (calls.reset_backend c.backend).0,
        record c { backend = (calls.reset_backend c.backend).1 },
      )
      else (false, c)
