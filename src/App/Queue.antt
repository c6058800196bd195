-- ===== src/App/Queue.antt =====
-- components/smoker_app/src/smoker_application.cpp: `submit` and the ring of queued commands.
pub mod Kept
pub mod Refine
pub mod Ring
use smoker_firmware.Common.{
  ℕ, ◌+◌, ◌-◌, ◌%◌, ◌^◌, List, [], ◌∷◌, ◌++◌, Bool, true, false, not, ◌&&◌, ◌||◌, Option, none,
  some, arith, if◌then◌else◌, holds, ◌==◌, ltb, leb, length, set, get_elem?,
}
use smoker_firmware.App.Commands.{Command, is_stop, command_result_capacity}
use smoker_firmware.App.State.{
  App, CommandQueue, QueuedCommand, command_capacity, regular_command_capacity, u32,
  record_command_result, drop_oldest,
}

-- `commands_[index]`, where an index out of range holds nothing.
abbrev pub slot : CommandQueue → ℕ → Option QueuedCommand
slot q i = elim (get_elem? q.commands i) [ none ↦ none | some c ↦ c ]

abbrev pub previous : ℕ → ℕ
previous i = (i + command_capacity - 1) % command_capacity

abbrev pub next : ℕ → ℕ
next i = (i + 1) % command_capacity

unfoldable pub trailing_stop_is_pending : CommandQueue → Bool
trailing_stop_is_pending q =
    if q.count == 0 then false else holds (slot q (previous q.tail)) (λ c. is_stop c.command)

-- The array of coalesced ids drops its oldest entry when it is full.
unfoldable pub coalesce : ℕ → QueuedCommand → QueuedCommand
coalesce id c = record c {
  coalesced_correlation_ids =
      (if length c.coalesced_correlation_ids == command_result_capacity
        then drop_oldest c.coalesced_correlation_ids
        else c.coalesced_correlation_ids)
      ++ (id ∷ []);
}

unfoldable pub coalesce_trailing : ℕ → CommandQueue → CommandQueue
unfolding coalesce
coalesce_trailing id q = elim (slot q (previous q.tail)) [
  | none ↦ q
  | some c ↦ record q { commands = set q.commands (previous q.tail) (some (coalesce id c)) }
]

unfoldable pub enqueue : Command → ℕ → CommandQueue → CommandQueue
enqueue command id q = record q {
  commands =
      set q.commands q.tail
        (some (record { command = command; correlation_id = id; coalesced_correlation_ids = [] }));
  tail = next q.tail;
  count = q.count + 1;
}

abbrev pub admission_limit : Command → ℕ
admission_limit command = if is_stop command then command_capacity else regular_command_capacity

unfoldable pub submit : Command → ℕ → App → App × Bool
submit command id a =
    if is_stop command && trailing_stop_is_pending a.queue
    then (if id == 0 then a else record a { queue = coalesce_trailing id a.queue }, true)
    else if leb (admission_limit command) a.queue.count
    then (
      record_command_result id false (record a {
        queue = record (a.queue) { overflow_count = u32 (a.queue.overflow_count + 1) };
      }),
      false,
    )
    else (record a { queue = enqueue command id a.queue }, true)

-- The end of a round of `process_pending_commands`: the value stays in its slot.
unfoldable pub dequeue : CommandQueue → CommandQueue
dequeue q = record q { head = next q.head; count = q.count - 1 }
