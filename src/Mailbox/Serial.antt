-- ===== src/Mailbox/Serial.antt =====
-- components/smoker_app/src/command_mailbox.cpp: whole calls of `push` and `try_pop` between the
-- accesses of the other side.
use smoker_firmware.Common.{
  ◌%◌, ◌≡◌, refl, sym, subst, inl, inr, true, false, leb, ◌==◌, Bool-cases, List, [], ◌∷◌, ◌++◌,
  Option, none, some, arith,
}
use smoker_firmware.Mailbox.{
  MailboxAdmission, TransportCommand, Mailbox, push, try_pop, mailbox_limit, store, capacity,
  add_word, sub_word,
}
use smoker_firmware.Mailbox.Steps.{
  Producer, Consumer, System, load_read, refuse, write_slot, publish, load_write, give_up,
  take_slot, advance, Reach, then,
}
use smoker_firmware.Common.Window.{slot_of}

-- The commands accepted after a call of `push` that answered so.
abbrev pub sent_after :
    MailboxAdmission
    → TransportCommand
    → List (Option TransportCommand)
    → List (Option TransportCommand)
sent_after MailboxAdmission.accepted c l = l ++ (some c ∷ [])
sent_after MailboxAdmission.full c l = l

abbrev pub received_after :
    Option (Option TransportCommand)
    → List (Option TransportCommand)
    → List (Option TransportCommand)
received_after (some c) l = l ++ (c ∷ [])
received_after none l = l

abbrev pub after_push : TransportCommand → System → MailboxAdmission × Mailbox → System
after_push c s r = record s {
  producer = Producer.resting;
  mailbox = r.1;
  sent = sent_after r.0 c s.sent;
}

abbrev pub after_try_pop : System → Option (Option TransportCommand) × Mailbox → System
after_try_pop s r = record s {
  consumer = Consumer.resting;
  mailbox = r.1;
  received = received_after r.0 s.received;
}

push-full :
    (c : TransportCommand) (m : Mailbox)
    → leb (mailbox_limit c.command) (sub_word m.write_sequence m.read_sequence) ≡ true
    → push c m ≡ (MailboxAdmission.full, record m { overflow_count = add_word m.overflow_count 1 })
unfolding push
push-full c m h = ground arith

push-accepted :
    (c : TransportCommand) (m : Mailbox)
    → leb (mailbox_limit c.command) (sub_word m.write_sequence m.read_sequence) ≡ false
    → push c m ≡ (
      MailboxAdmission.accepted,
      record (store c m) { write_sequence = add_word m.write_sequence 1 },
    )
unfolding push
push-accepted c m h = ground arith

try_pop-none : (m : Mailbox) → (m.read_sequence == m.write_sequence) ≡ true → try_pop m ≡ (none, m)
unfolding try_pop
try_pop-none m h = ground arith

try_pop-some :
    (m : Mailbox)
    → (m.read_sequence == m.write_sequence) ≡ false
    → try_pop m ≡ (
      some (slot_of m.commands (m.read_sequence % capacity)),
      record m { read_sequence = add_word m.read_sequence 1 },
    )
unfolding try_pop
try_pop-some m h = ground arith

-- A call of `push` with no access of the consumer in between is a run of the step relation.
pub push-Reach :
    {s : System} (c : TransportCommand)
    → Reach s
    → s.producer ≡ Producer.resting
    → Reach (after_push c s (push c s.mailbox))
unfolding store
push-Reach {s} c r e =
    let m = s.mailbox in
    let loaded = then r (load_read c e) in
    elim (Bool-cases (leb (mailbox_limit c.command) (sub_word m.write_sequence m.read_sequence))) [
      | inl h ↦
          subst (λ x. Reach (after_push c s x)) (sym (push-full c m h))
            (then loaded (refuse c m.read_sequence refl (ground (arith, h))))
      | inr h ↦
          subst (λ x. Reach (after_push c s x)) (sym (push-accepted c m h))
            (then (then loaded (write_slot c m.read_sequence refl (ground (arith, h))))
              (publish c refl))
    ]

-- A call of `try_pop` with no access of the producer in between is a run of the step relation.
try_pop-Reach :
    {s : System}
    → Reach s
    → s.consumer ≡ Consumer.resting
    → Reach (after_try_pop s (try_pop s.mailbox))
try_pop-Reach {s} r e =
    let m = s.mailbox in
    let loaded = then r (load_write e) in
    elim (Bool-cases (m.read_sequence == m.write_sequence)) [
      | inl h ↦
          subst (λ x. Reach (after_try_pop s x)) (sym (try_pop-none m h))
            (then loaded (give_up m.write_sequence refl (ground (arith, h))))
      | inr h ↦
          subst (λ x. Reach (after_try_pop s x)) (sym (try_pop-some m h))
            (then (then loaded (take_slot m.write_sequence refl (ground (arith, h))))
              (advance _ refl))
    ]
