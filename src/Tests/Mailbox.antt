-- ===== src/Tests/Mailbox.antt =====
-- The command mailbox on concrete calls.
use smoker_firmware.Common.{ℕ, ◌≡◌, refl, [], ◌∷◌, some}
use smoker_firmware.App.Commands.{Command}
use smoker_firmware.Mailbox.{TransportCommand, push, try_pop, pending, store}
use smoker_firmware.Mailbox.Steps.{System, start, Reach, here}
use smoker_firmware.Mailbox.Fifo.{Reach-IsMailbox}
use smoker_firmware.Mailbox.Sides.{IsMailbox}
use smoker_firmware.Mailbox.Serial.{after_push, after_try_pop, push-Reach}

abbrev stop_command : TransportCommand
stop_command = record {
  command = Command.stop_session;
  correlation_id = 7;
  transport_generation = 2;
}

abbrev pushed_stop : System
pushed_stop = after_push stop_command start (push stop_command start.mailbox)

pushed_stop-Reach : Reach pushed_stop
pushed_stop-Reach = push-Reach stop_command here refl

Reach-IsMailbox_example : (n : ℕ) × IsMailbox pushed_stop n
Reach-IsMailbox_example = Reach-IsMailbox pushed_stop-Reach

pop_delivers_the_stop :
    (after_try_pop pushed_stop (try_pop pushed_stop.mailbox)).received ≡ some stop_command ∷ []
unfolding push try_pop store
pop_delivers_the_stop = refl

pending_after_push : pending pushed_stop.mailbox ≡ 1
unfolding push pending store
pending_after_push = refl
