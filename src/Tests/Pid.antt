-- ===== src/Tests/Pid.antt =====
-- A controller whose backend answers 100 percent to every error.
use smoker_firmware.Common.{◌≡◌, ◌↔◌, refl, Bool, true, false, none, some}
use smoker_firmware.Common.Float32
use smoker_firmware.Common.Float32.{Float32, zero_float, hundred}
use smoker_firmware.Core.Domain.{from_percent}
use smoker_firmware.Pid.{
  PidCalculationForm, PidControllerConfiguration, PidControllerBackend, PidChamberController,
  valid_pid_controller_configuration, common_values_are_valid, valid_form, new_controller, error_of,
  request,
}
use smoker_firmware.Pid.Output
use smoker_firmware.Pid.Output.{IsComputed, request_iff}
use smoker_firmware.Tests.Demo.{celsius_50, celsius_100}

abbrev full_power : PidControllerBackend Bool
full_power = record {
  initialize = λ c b. (true, true);
  compute = λ x b. (b, hundred, b);
  reset_backend = λ b. (true, true);
}

-- Stands for the subtraction: both temperatures are finite, and so is the first of them.
abbrev first_of : Float32 → Float32 → Float32
first_of a b = a

abbrev gains : PidControllerConfiguration
gains = record {
  proportional_gain = hundred;
  integral_gain = zero_float;
  derivative_gain = zero_float;
  minimum_output_percent = zero_float;
  maximum_output_percent = hundred;
  calculation_form = PidCalculationForm.incremental;
  positional_accumulated_error_bounds = none;
}

abbrev heating : PidChamberController Bool
heating = new_controller full_power first_of gains false

request_iff_example :
    ((request full_power first_of celsius_50 celsius_100 heating).0
      ≡ some (record { percent = hundred }))
    ↔ ((heating.initialized ≡ true)
        × ((Float32.is_finite (error_of full_power first_of celsius_50 celsius_100) ≡ true)
            × IsComputed full_power first_of gains
                (record { percent = hundred })
                (full_power.compute
                  (error_of full_power first_of celsius_50 celsius_100)
                  heating.backend)))
request_iff_example =
    request_iff full_power first_of (Output.Reach.made false) celsius_50 celsius_100
      (record { percent = hundred })

heating_answers :
    (request full_power first_of celsius_50 celsius_100 heating).0
    ≡ some (record { percent = hundred })
unfolding request new_controller valid_pid_controller_configuration common_values_are_valid
    valid_form from_percent Float32.is_finite Float32.lt Float32.le Float32.rank Float32.is_nan
heating_answers = refl
