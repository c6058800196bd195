-- ===== src/Mailbox/Sides.antt =====
-- components/smoker_app/src/command_mailbox.cpp: what holds of the mailbox between two accesses, and
-- what each side knows where it stands.
use smoker_firmware.Common.{
  ℕ, suc, ◌-◌, ◌%◌, ◌^◌, ◌≤◌, ◌<◌, ◌≡◌, ◌≢◌, refl, ◌∙◌, ◌++◌, some, arith, length,
}
use smoker_firmware.Common.Window.{slot_of, window, slot_of-set_ne}
use smoker_firmware.Mailbox.{
  TransportCommand, Mailbox, capacity, add_word, sub_word, mailbox_limit, store,
}
use smoker_firmware.Mailbox.Steps.{Producer, Consumer, System, start}

-- The first place of the unread commands.
abbrev pub head_of : System → ℕ
head_of s = s.mailbox.read_sequence % capacity

-- What the producer knows: an old read sequence promises no more room than there is; a stored
-- command lies in the place after the unread ones.
abbrev pub ProducerFits : Producer → Mailbox → ℕ → Type 0
ProducerFits Producer.resting m n = Unit {0}
ProducerFits (Producer.loaded c seen) m n = (seen < 2 ^ 32) × (n ≤ sub_word m.write_sequence seen)
ProducerFits (Producer.stored c) m n =
    (n < mailbox_limit c.command) × (slot_of m.commands (m.write_sequence % capacity) ≡ some c)

-- What the consumer knows: an old write sequence promises no more than there is; a taken command is
-- the oldest unread one.
abbrev pub ConsumerFits : Consumer → Mailbox → ℕ → Type 0
ConsumerFits Consumer.resting m n = Unit {0}
ConsumerFits (Consumer.loaded seen) m n = m.read_sequence ≢ seen → 0 < n
ConsumerFits (Consumer.taken c) m n =
    (0 < n) × (slot_of m.commands (m.read_sequence % capacity) ≡ c)

-- `n` commands are unread.
pub record IsMailbox (s : System) (n : ℕ) : Type 0 where
  pub whole : length s.mailbox.commands ≡ capacity
  pub read_word : s.mailbox.read_sequence < 2 ^ 32
  pub ahead : s.mailbox.write_sequence ≡ add_word s.mailbox.read_sequence n
  pub few : n ≤ capacity
  pub fifo : s.sent ≡ s.received ++ window s.mailbox.commands (head_of s) n
  pub producer_fits : ProducerFits s.producer s.mailbox n
  pub consumer_fits : ConsumerFits s.consumer s.mailbox n

pub start-IsMailbox : IsMailbox start 0
start-IsMailbox = record {
  whole = refl;
  read_word = omega arith;
  ahead = refl;
  few = omega arith;
  fifo = refl;
  producer_fits = tt;
  consumer_fits = tt;
}

-- The place that the producer writes is not the oldest unread one.
pub store-ConsumerFits :
    (k : Consumer) (c : TransportCommand) (m : Mailbox) (n : ℕ)
    → m.write_sequence ≡ add_word m.read_sequence n
    → n < capacity
    → ConsumerFits k m n
    → ConsumerFits k (store c m) n
unfolding store
store-ConsumerFits Consumer.resting c m n e h f = tt
store-ConsumerFits (Consumer.loaded seen) c m n e h f = f
store-ConsumerFits (Consumer.taken x) c m n e h f = (
  f.0,
  slot_of-set_ne m.commands (m.write_sequence % capacity) (m.read_sequence % capacity) (some c)
        (omega (arith, e, f.0))
      ∙ f.1,
)

pub publish-ConsumerFits :
    (k : Consumer) (m : Mailbox) (w n : ℕ)
    → ConsumerFits k m n
    → ConsumerFits k (record m { write_sequence = w }) (suc n)
publish-ConsumerFits Consumer.resting m w n f = tt
publish-ConsumerFits (Consumer.loaded seen) m w n f = λ _. omega arith
publish-ConsumerFits (Consumer.taken x) m w n f = (omega arith, f.1)

pub advance-ProducerFits :
    (p : Producer) (m : Mailbox) (r n : ℕ)
    → ProducerFits p m n
    → ProducerFits p (record m { read_sequence = r }) (n - 1)
advance-ProducerFits Producer.resting m r n f = tt
advance-ProducerFits (Producer.loaded c seen) m r n f = (f.0, omega arith)
advance-ProducerFits (Producer.stored c) m r n f = (omega arith, f.1)

pub refuse-ConsumerFits :
    (k : Consumer) (m : Mailbox) (o n : ℕ)
    → ConsumerFits k m n
    → ConsumerFits k (record m { overflow_count = o }) n
refuse-ConsumerFits Consumer.resting m o n f = tt
refuse-ConsumerFits (Consumer.loaded seen) m o n f = f
refuse-ConsumerFits (Consumer.taken x) m o n f = f

pub limit-le-capacity : (c : TransportCommand) → mailbox_limit c.command ≤ capacity
limit-le-capacity c = ground arith
