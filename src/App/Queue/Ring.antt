-- ===== src/App/Queue/Ring.antt =====
-- components/smoker_app/src/smoker_application.cpp: the circular array of commands as a sequence.
use smoker_firmware.Common.{
  ◌+◌, ◌%◌, ◌≤◌, ◌<◌, List, true, Option, has_value, holds, ◌≡◌, length, All,
}
pub use smoker_firmware.Common.Window.{
  slot_of, window, length-window, window-last, window-set_outside, window-set_last,
}
use smoker_firmware.App.Commands.{is_stop}
use smoker_firmware.App.State.{QueuedCommand, CommandQueue, command_capacity}
use smoker_firmware.App.Queue.{slot, previous}

abbrev pub Slots : Type 0
Slots = List (Option QueuedCommand)

-- The queued commands, oldest first.
abbrev pub contents : CommandQueue → Slots
contents q = window q.commands q.head q.count

abbrev pub IsCommand : Option QueuedCommand → Type 0
IsCommand c = has_value c ≡ true

-- The indices agree with the count, the queued slots hold commands, and the last place of a full
-- queue is taken by a Stop.
pub record IsRing (q : CommandQueue) : Type 0 where
  pub full : length q.commands ≡ command_capacity
  pub head_in : q.head < command_capacity
  pub tail_at : q.tail ≡ (q.head + q.count) % command_capacity
  pub count_in : q.count ≤ command_capacity
  pub filled : All IsCommand (contents q)
  pub last_stop :
      q.count ≡ command_capacity → holds (slot q (previous q.tail)) (λ c. is_stop c.command) ≡ true
