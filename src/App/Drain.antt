-- ===== src/App/Drain.antt =====
-- components/smoker_app/src/smoker_application.cpp: `process_pending_commands`.
pub mod Stop
pub mod Order
use smoker_firmware.Common.{
  ℕ, zero, suc, List, [], ◌∷◌, Bool, true, false, not, ◌&&◌, ◌||◌, Option, none, some, arith,
  if◌then◌else◌, holds, ltb,
}
use smoker_firmware.Core.Domain.{TimePoint}
use smoker_firmware.App.Commands.{Command, is_stop}
use smoker_firmware.App.State.{App, QueuedCommand, session_running, record_command_result}
use smoker_firmware.App.Queue.{slot, dequeue}
use smoker_firmware.App.Handlers.{process}

unfoldable pub record_all : List ℕ → Bool → App → App
record_all [] accepted a = a
record_all (id ∷ ids) accepted a = record_all ids accepted (record_command_result id accepted a)

-- A command, then its results under its own id and the coalesced ones.
unfoldable pub run_command : QueuedCommand → TimePoint → App → App
run_command c now a =
    let b : App = process c.command now (record a { current_command_rejected = false }) in
    record_all c.coalesced_correlation_ids (not b.current_command_rejected)
      (record_command_result c.correlation_id (not b.current_command_rejected) b)

unfoldable pub run_slot : Option QueuedCommand → TimePoint → App → App
run_slot none now a = record a { current_command_rejected = false }
run_slot (some c) now a = run_command c now a

-- A Stop at the head while a session runs ends the loop for this cycle.
unfoldable pub manual_stop_barrier : App → Bool
manual_stop_barrier a =
    holds (slot a.queue a.queue.head) (λ c. is_stop c.command) && session_running a.session

-- One round of the loop, without its test.
unfoldable pub run_head : TimePoint → App → App
run_head now a =
    let b : App = run_slot (slot a.queue a.queue.head) now a in record b { queue = dequeue b.queue }

-- `while (command_count_ > 0)`, on fuel.
unfoldable pub drain : ℕ → TimePoint → App → App
drain zero now a = a
drain (suc fuel) now a =
    let rest = drain fuel now (run_head now a) in
    if ltb 0 a.queue.count then if manual_stop_barrier a then run_head now a else rest else a

-- Each round takes one command, so their number is fuel enough.
unfoldable pub process_pending_commands : TimePoint → App → App
process_pending_commands now a = drain a.queue.count now a
