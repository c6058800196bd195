-- ===== src/Tests/Demo.antt =====
-- A smoker with one probe, a limit of 150 degrees and a recipe for 100 degrees with a timer of a
-- minute; ports that answer with constants.
use smoker_firmware.Common.{◌*◌, List, [], ◌∷◌, true, false, none, some, length}
use smoker_firmware.Common.Int.{pos}
use smoker_firmware.Common.Float32.{hundred}
use smoker_firmware.Core.Domain.{
  Temperature, FoodProbeConfig, ProbeRole, Recipe, StageTimer, TimerStartConditionType,
  TimerCompletionAction, SafetyLimits,
}
use smoker_firmware.App.Commands.{Ports, Command}
use smoker_firmware.App.State.{App}
use smoker_firmware.App.Queue.{submit}
use smoker_firmware.App.Tick.{tick}
use smoker_firmware.App.Boot.{boot}

abbrev pub celsius_50 : Temperature
celsius_50 = record { celsius = record { negative = false; magnitude = 0x42480000 } }

abbrev pub celsius_100 : Temperature
celsius_100 = record { celsius = hundred }

abbrev pub celsius_150 : Temperature
celsius_150 = record { celsius = record { negative = false; magnitude = 0x43160000 } }

abbrev pub limits : SafetyLimits
limits = record { maximum_chamber_temperature = celsius_150 }

-- The clock advances by a second with each call of a port.
abbrev pub ports : Ports
ports = record {
  now = λ calls. pos (1000 * length calls);
  read_chamber = λ calls. some celsius_50;
  read_food = λ calls id. some celsius_50;
  request = λ calls t target. some (record { percent = hundred });
  reset = λ calls. true;
}

abbrev pub configuration : List FoodProbeConfig
configuration =
    record {
      id = 1;
      name = "left";
      role = ProbeRole.meat;
      target_temperature = some celsius_50;
      enabled = true;
      alarm_enabled = true;
    }
    ∷ []

abbrev pub minute : StageTimer
minute = record {
  duration = pos 60000;
  start_condition = record {
    type = TimerStartConditionType.immediate;
    temperature = none;
    probe_id = none;
  };
  completion_action = TimerCompletionAction.stop_session;
}

abbrev pub brisket : Recipe
brisket = record {
  id = 4;
  name = "brisket";
  stage = record { id = 1; name = "smoke"; chamber_target = some celsius_100; timer = some minute };
}

-- Booted with a Start in the queue, then running, then with a Stop and a Start in the queue.
abbrev pub ready : App
ready = (submit (Command.start_session 9 brisket) 21 (boot ports limits configuration)).0

abbrev pub running : App
running = tick ports ready

abbrev pub stopping : App
stopping =
    (submit (Command.start_session 10 brisket) 23 (submit Command.stop_session 22 running).0).0
