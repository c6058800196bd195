-- ===== src/Mailbox.antt =====
-- components/smoker_app: command_mailbox.hpp and command_mailbox.cpp, called by one thread.
pub mod Steps
pub mod Sides
pub mod Fifo
pub mod Serial
use smoker_firmware.Common.{
  ℕ, ◌+◌, ◌-◌, ◌%◌, ◌^◌, List, [], ◌∷◌, Bool, true, false, Option, none, some, if◌then◌else◌, ◌==◌,
  leb, set, replicate,
}
use smoker_firmware.Common.Window.{slot_of}
use smoker_firmware.App.Commands.{Command, is_stop}

pub data MailboxAdmission : Type 0 where
  accepted full : MailboxAdmission

pub record TransportCommand : Type 0 where
  pub command : Command
  pub correlation_id : ℕ
  pub transport_generation : ℕ

abbrev pub capacity : ℕ
capacity = 16

abbrev pub regular_admission_capacity : ℕ
regular_admission_capacity = 15

-- The two sequences are `uint32_t` and wrap; so is the count of refusals.
pub record Mailbox : Type 0 where
  pub commands : List (Option TransportCommand)
  pub read_sequence : ℕ
  pub write_sequence : ℕ
  pub overflow_count : ℕ

abbrev pub new_mailbox : Mailbox
new_mailbox = record {
  commands = replicate capacity none;
  read_sequence = 0;
  write_sequence = 0;
  overflow_count = 0;
}

-- Sums and differences of 32-bit words.
abbrev pub add_word : ℕ → ℕ → ℕ
add_word a b = (a + b) % 2 ^ 32

abbrev pub sub_word : ℕ → ℕ → ℕ
sub_word a b = (a + 2 ^ 32 - b) % 2 ^ 32

abbrev pub mailbox_limit : Command → ℕ
mailbox_limit command = if is_stop command then capacity else regular_admission_capacity

-- The write of the slot; an empty slot and a used one end up the same.
unfoldable pub store : TransportCommand → Mailbox → Mailbox
store c m = record m { commands = set m.commands (m.write_sequence % capacity) (some c) }

unfoldable pub push : TransportCommand → Mailbox → MailboxAdmission × Mailbox
unfolding store
push c m =
    if leb (mailbox_limit c.command) (sub_word m.write_sequence m.read_sequence)
    then (MailboxAdmission.full, record m { overflow_count = add_word m.overflow_count 1 })
    else (
      MailboxAdmission.accepted,
      record (store c m) { write_sequence = add_word m.write_sequence 1 },
    )

-- The inner option is what the slot held; the outer one is `none` where `try_pop` returns false.
-- What the slot holds after the move out of it is not looked at before it is written again, so the
-- model leaves it as it was.
unfoldable pub try_pop : Mailbox → Option (Option TransportCommand) × Mailbox
try_pop m = if m.read_sequence == m.write_sequence then (none, m) else (
  some (slot_of m.commands (m.read_sequence % capacity)),
  record m { read_sequence = add_word m.read_sequence 1 },
)

unfoldable pub pending : Mailbox → ℕ
pending m = sub_word m.write_sequence m.read_sequence
