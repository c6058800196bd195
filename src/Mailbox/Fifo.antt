-- ===== src/Mailbox/Fifo.antt =====
-- components/smoker_app/src/command_mailbox.cpp: what is delivered is what was accepted, in order.
use smoker_firmware.Common.{
  ℕ, zero, suc, ◌+◌, ◌-◌, ◌%◌, ◌<◌, ◌≡◌, refl, sym, ap, ap₂, subst, ◌∙◌, List, [], ◌∷◌, ◌++◌,
  Option, some, arith, set, length-set,
}
use smoker_firmware.Common.Window.{
  slot_of, window, window-last, window-set_outside, slot_of-set_self, successor,
}
use smoker_firmware.Mailbox.{TransportCommand, capacity, add_word, mailbox_limit, store}
use smoker_firmware.Mailbox.Steps.{
  Producer, Consumer, System, Step, load_read, refuse, write_slot, publish, load_write, give_up,
  take_slot, advance, Reach, here, then,
}
use mathlib.Core.List.{append_assoc}
use smoker_firmware.Mailbox.Sides.{
  start-IsMailbox, store-ConsumerFits, publish-ConsumerFits, advance-ProducerFits,
  refuse-ConsumerFits, limit-le-capacity, head_of, ProducerFits, ConsumerFits, IsMailbox,
}

module _ {s : System} {n : ℕ} (v : IsMailbox s n) where
  store-IsMailbox :
      (c : TransportCommand)
      → n < mailbox_limit c.command
      → IsMailbox (record s { producer = Producer.stored c; mailbox = store c s.mailbox }) n
  unfolding store
  store-IsMailbox c room =
      let h : n < capacity = omega (arith, room, limit-le-capacity c) in
      let w = s.mailbox.write_sequence % capacity in
      record {
        whole = length-set s.mailbox.commands w (some c) ∙ v.whole;
        read_word = v.read_word;
        ahead = v.ahead;
        few = v.few;
        fifo =
            v.fifo
            ∙ ap (◌++◌ s.received) (
                sym (
                  ap (λ i. window (set s.mailbox.commands i (some c)) (head_of s) n)
                    {y = (head_of s + n) % capacity} (omega (arith, v.ahead))
                  ∙ window-set_outside s.mailbox.commands (head_of s) n n (some c) (omega arith)
                      (omega arith) h));
        producer_fits =
            (room, slot_of-set_self s.mailbox.commands w (some c) (omega (arith, v.whole)));
        consumer_fits = store-ConsumerFits s.consumer c s.mailbox n v.ahead h v.consumer_fits;
      }

  publish-IsMailbox :
      (c : TransportCommand)
      → ProducerFits (Producer.stored c) s.mailbox n
      → IsMailbox
          (record s {
            producer = Producer.resting;
            mailbox = record (s.mailbox) { write_sequence = add_word s.mailbox.write_sequence 1 };
            sent = s.sent ++ (some c ∷ []);
          })
          (suc n)
  publish-IsMailbox c f =
      let last : slot_of s.mailbox.commands ((head_of s + n) % capacity) ≡ some c =
        ap (slot_of s.mailbox.commands) (omega (arith, v.ahead)) ∙ f.1 in
      record {
        whole = v.whole;
        read_word = v.read_word;
        ahead = omega (arith, v.ahead);
        few = omega (arith, f.0, limit-le-capacity c);
        fifo =
            ap (λ l. l ++ (some c ∷ [])) v.fifo
            ∙ append_assoc s.received (window s.mailbox.commands (head_of s) n) (some c ∷ [])
            ∙ ap (◌++◌ s.received) (
                ap (λ x. window s.mailbox.commands (head_of s) n ++ (x ∷ [])) (sym last)
                ∙ sym (window-last s.mailbox.commands (head_of s) n (omega arith)));
        producer_fits = tt;
        consumer_fits =
            publish-ConsumerFits s.consumer s.mailbox (add_word s.mailbox.write_sequence 1) n
              v.consumer_fits;
      }

window-head :
    (cs : List (Option TransportCommand)) (h n : ℕ)
    → 0 < n
    → window cs h n ≡ slot_of cs h ∷ window cs (successor h) (n - 1)
window-head cs h zero p = absurd (omega arith)
window-head cs h (suc n) p = ap (λ k. slot_of cs h ∷ window cs (successor h) k) (omega arith)

module _ {s : System} {n : ℕ} (v : IsMailbox s n) where
  advance-IsMailbox :
      (c : Option TransportCommand)
      → ConsumerFits (Consumer.taken c) s.mailbox n
      → IsMailbox
          (record s {
            consumer = Consumer.resting;
            mailbox = record (s.mailbox) { read_sequence = add_word s.mailbox.read_sequence 1 };
            received = s.received ++ (c ∷ []);
          })
          (n - 1)
  advance-IsMailbox c f = record {
    whole = v.whole;
    read_word = omega arith;
    ahead = omega (arith, v.ahead, v.read_word, f.0);
    few = omega (arith, v.few);
    fifo =
        v.fifo
        ∙ ap (◌++◌ s.received) (
            window-head s.mailbox.commands (head_of s) n f.0
            ∙ ap₂ ◌∷◌ f.1 (
                ap (λ h. window s.mailbox.commands h (n - 1))
                  {y = add_word s.mailbox.read_sequence 1 % capacity} (omega arith)))
        ∙ sym (append_assoc s.received (c ∷ []) _);
    producer_fits =
        advance-ProducerFits s.producer s.mailbox (add_word s.mailbox.read_sequence 1) n
          v.producer_fits;
    consumer_fits = tt;
  }

  -- Each access keeps the description, for some number of unread commands.
  Step-IsMailbox : {t : System} → Step s t → (k : ℕ) × IsMailbox t k
  Step-IsMailbox (load_read c e) = (
    n,
    record {
      whole = v.whole;
      read_word = v.read_word;
      ahead = v.ahead;
      few = v.few;
      fifo = v.fifo;
      producer_fits = (v.read_word, omega (arith, v.ahead, v.few, v.read_word));
      consumer_fits = v.consumer_fits;
    },
  )
  Step-IsMailbox (refuse c seen e h) = (
    n,
    record {
      whole = v.whole;
      read_word = v.read_word;
      ahead = v.ahead;
      few = v.few;
      fifo = v.fifo;
      producer_fits = tt;
      consumer_fits = refuse-ConsumerFits s.consumer s.mailbox _ n v.consumer_fits;
    },
  )
  Step-IsMailbox (write_slot c seen e h) =
      let f : ProducerFits (Producer.loaded c seen) s.mailbox n =
        subst (λ p. ProducerFits p s.mailbox n) e v.producer_fits in
      (n, store-IsMailbox v c (omega (arith, h, f.1)))
  Step-IsMailbox (publish c e) =
      (suc n, publish-IsMailbox v c (subst (λ p. ProducerFits p s.mailbox n) e v.producer_fits))
  Step-IsMailbox (load_write e) = (
    n,
    record {
      whole = v.whole;
      read_word = v.read_word;
      ahead = v.ahead;
      few = v.few;
      fifo = v.fifo;
      producer_fits = v.producer_fits;
      consumer_fits = λ d. ground (arith, v.ahead, v.read_word);
    },
  )
  Step-IsMailbox (give_up seen e h) = (
    n,
    record {
      whole = v.whole;
      read_word = v.read_word;
      ahead = v.ahead;
      few = v.few;
      fifo = v.fifo;
      producer_fits = v.producer_fits;
      consumer_fits = tt;
    },
  )
  Step-IsMailbox (take_slot seen e h) =
      let f : ConsumerFits (Consumer.loaded seen) s.mailbox n =
        subst (λ k. ConsumerFits k s.mailbox n) e v.consumer_fits in
      (
        n,
        record {
          whole = v.whole;
          read_word = v.read_word;
          ahead = v.ahead;
          few = v.few;
          fifo = v.fifo;
          producer_fits = v.producer_fits;
          consumer_fits = (f h, refl);
        },
      )
  Step-IsMailbox (advance c e) =
      (n - 1, advance-IsMailbox c (subst (λ k. ConsumerFits k s.mailbox n) e v.consumer_fits))

-- However the two sides are interleaved, and however often the sequences wrap: the commands
-- accepted so far are those delivered so far followed by the unread slots, in order, so none is
-- lost, doubled, reordered or overwritten; at most 16 are unread; a slot that is about to be
-- published lies behind the unread ones, and a slot that was taken is the oldest of them.
pub Reach-IsMailbox : {s : System} → Reach s → (n : ℕ) × IsMailbox s n
Reach-IsMailbox here = (0, start-IsMailbox)
Reach-IsMailbox (then r st) = let (n, v) = Reach-IsMailbox r in Step-IsMailbox v st
