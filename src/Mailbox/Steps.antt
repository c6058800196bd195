-- ===== src/Mailbox/Steps.antt =====
-- components/smoker_app/src/command_mailbox.cpp: one producer and one consumer, interleaved at each
-- access of a shared sequence or slot. The release and acquire orders make the accesses of one side
-- visible to the other in program order, so the interleaving is sequential.
use smoker_firmware.Common.{ℕ, ◌%◌, ◌≤◌, ◌<◌, ◌≡◌, ◌≢◌, List, [], ◌∷◌, ◌++◌, Option, some}
use smoker_firmware.Common.Window.{slot_of}
use smoker_firmware.Mailbox.{
  TransportCommand, Mailbox, new_mailbox, capacity, add_word, sub_word, mailbox_limit, store,
}

-- Where `push` stands: before its first load, after the load of the other side's sequence, after
-- the write of the slot.
pub data Producer : Type 0 where
  resting : Producer
  loaded : TransportCommand → ℕ → Producer
  stored : TransportCommand → Producer

-- Where `try_pop` stands: before its first load, after the load of the write sequence, after the
-- read of the slot.
pub data Consumer : Type 0 where
  resting : Consumer
  loaded : ℕ → Consumer
  taken : Option TransportCommand → Consumer

-- The mailbox, both sides, and the commands accepted and delivered so far, oldest first.
pub record System : Type 0 where
  pub mailbox : Mailbox
  pub producer : Producer
  pub consumer : Consumer
  pub sent : List (Option TransportCommand)
  pub received : List (Option TransportCommand)

abbrev pub start : System
start = record {
  mailbox = new_mailbox;
  producer = Producer.resting;
  consumer = Consumer.resting;
  sent = [];
  received = [];
}

pub data Step (s : System) : System → Type 0 where
  -- `read_sequence_.load`
  load_read :
      (c : TransportCommand)
      → s.producer ≡ Producer.resting
      → Step s (record s { producer = Producer.loaded c s.mailbox.read_sequence })
  refuse :
      (c : TransportCommand) (seen : ℕ)
      → s.producer ≡ Producer.loaded c seen
      → mailbox_limit c.command ≤ sub_word s.mailbox.write_sequence seen
      → Step s (record s {
        producer = Producer.resting;
        mailbox = record (s.mailbox) { overflow_count = add_word s.mailbox.overflow_count 1 };
      })
  write_slot :
      (c : TransportCommand) (seen : ℕ)
      → s.producer ≡ Producer.loaded c seen
      → sub_word s.mailbox.write_sequence seen < mailbox_limit c.command
      → Step s (record s { producer = Producer.stored c; mailbox = store c s.mailbox })
  -- `write_sequence_.store`
  publish :
      (c : TransportCommand)
      → s.producer ≡ Producer.stored c
      → Step s (record s {
        producer = Producer.resting;
        mailbox = record (s.mailbox) { write_sequence = add_word s.mailbox.write_sequence 1 };
        sent = s.sent ++ (some c ∷ []);
      })
  -- `write_sequence_.load`
  load_write :
      s.consumer ≡ Consumer.resting
      → Step s (record s { consumer = Consumer.loaded s.mailbox.write_sequence })
  give_up :
      (seen : ℕ)
      → s.consumer ≡ Consumer.loaded seen
      → s.mailbox.read_sequence ≡ seen
      → Step s (record s { consumer = Consumer.resting })
  take_slot :
      (seen : ℕ)
      → s.consumer ≡ Consumer.loaded seen
      → s.mailbox.read_sequence ≢ seen
      → Step s (record s {
        consumer = Consumer.taken (slot_of s.mailbox.commands (s.mailbox.read_sequence % capacity));
      })
  -- `read_sequence_.store`
  advance :
      (c : Option TransportCommand)
      → s.consumer ≡ Consumer.taken c
      → Step s (record s {
        consumer = Consumer.resting;
        mailbox = record (s.mailbox) { read_sequence = add_word s.mailbox.read_sequence 1 };
        received = s.received ++ (c ∷ []);
      })

pub data Reach : System → Type 0 where
  here : Reach start
  then : {s t : System} → Reach s → Step s t → Reach t
