-- ===== src/App/Commands.antt =====
-- components/smoker_app: commands.hpp, snapshot_view.hpp (command results) and ports.hpp.
use smoker_firmware.Common.{ℕ, List, Bool, true, false, Option}
use smoker_firmware.Core.Domain.{Temperature, HeaterDemand, TimePoint, Recipe, Event}

pub data Command : Type 0 where
  start_session : ℕ → Recipe → Command
  stop_session : Command
  set_chamber_target : Option Temperature → Command
  set_probe_target : ℕ → Option Temperature → Command
  set_probe_enabled : ℕ → Bool → Command
  set_probe_alarm_enabled : ℕ → Bool → Command
  acknowledge_alarm : ℕ → Command
  clear_resolved_fault : Command
  prepare_firmware_update : Command
  finish_firmware_update : Command

-- `std::holds_alternative<StopSessionCommand>`
abbrev pub is_stop : Command → Bool
is_stop Command.stop_session = true
is_stop _ = false

pub record CommandResult : Type 0 where
  pub correlation_id : ℕ
  pub semantic_accepted : Bool

abbrev pub command_result_capacity : ℕ
command_result_capacity = 16

-- A call of one of the six ports, with what it returned or was given.
pub data PortCall : Type 0 where
  clock_now : TimePoint → PortCall
  chamber_read : Option Temperature → PortCall
  food_read : ℕ → Option Temperature → PortCall
  controller_request : Temperature → Temperature → Option HeaterDemand → PortCall
  controller_reset : Bool → PortCall
  heater_write : HeaterDemand → PortCall
  event_publish : Event → PortCall

-- What the ports answer. An answer may depend on all the calls made so far, newest first.
pub record Ports : Type 0 where
  pub now : List PortCall → TimePoint
  pub read_chamber : List PortCall → Option Temperature
  pub read_food : List PortCall → ℕ → Option Temperature
  pub request : List PortCall → Temperature → Temperature → Option HeaterDemand
  pub reset : List PortCall → Bool
