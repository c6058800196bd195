-- ===== src/App/Queue/Refine.antt =====
-- components/smoker_app/src/smoker_application.cpp: `submit` against a list of commands.
use smoker_firmware.Common.{
  ℕ, zero, suc, ◌+◌, ◌%◌, ◌≤◌, ◌<◌, [], ◌∷◌, ◌++◌, Bool, true, false, ◌&&◌, Option, none, some,
  arith, if◌then◌else◌, holds, ◌==◌, leb, ◌≡◌, refl, sym, ap, ◌∙◌, length, set, Option-cases, inl,
  inr,
}
use smoker_firmware.App.Commands.{Command, is_stop}
use smoker_firmware.App.State.{
  App, QueuedCommand, CommandQueue, command_capacity, u32, record_command_result,
}
use smoker_firmware.App.Queue.{
  slot, previous, trailing_stop_is_pending, coalesce, coalesce_trailing, enqueue, admission_limit,
  submit,
}
use smoker_firmware.App.Queue.Ring.{
  Slots, slot_of, window, contents, length-window, window-last, window-set_last, IsRing,
}

-- A Stop is admitted whatever is queued: it joins a Stop at the end, or takes the place that only a
-- Stop may take.
pub submit_stop_accepted :
    (id : ℕ) (a : App) → IsRing a.queue → (submit Command.stop_session id a).1 ≡ true
unfolding submit trailing_stop_is_pending
submit_stop_accepted id a r = ground (arith, r.last_stop, r.count_in)

-- The last of the queued commands, and the sequence with its last command changed.
abbrev pub last_slot : Slots → Option QueuedCommand
last_slot [] = none
last_slot (c ∷ []) = c
last_slot (c ∷ d ∷ cs) = last_slot (d ∷ cs)

abbrev pub amend_last : (QueuedCommand → QueuedCommand) → Slots → Slots
amend_last f [] = []
amend_last f (none ∷ []) = none ∷ []
amend_last f (some c ∷ []) = some (f c) ∷ []
amend_last f (c ∷ d ∷ cs) = c ∷ amend_last f (d ∷ cs)

-- The contract of `submit` on the sequence of queued commands, oldest first.
-- A command as it enters the queue.
abbrev pub queued : Command → ℕ → QueuedCommand
queued m id = record { command = m; correlation_id = id; coalesced_correlation_ids = [] }

abbrev pub submit_list : Command → ℕ → Slots → Slots × Bool
submit_list command id l =
    if is_stop command && holds (last_slot l) (λ c. is_stop c.command)
    then (if id == 0 then l else amend_last (coalesce id) l, true)
    else if leb (admission_limit command) (length l)
    then (l, false)
    else (l ++ (some (queued command id) ∷ []), true)

last_slot-append : (l : Slots) (c : Option QueuedCommand) → last_slot (l ++ (c ∷ [])) ≡ c
last_slot-append [] c = refl
last_slot-append (d ∷ []) c = refl
last_slot-append (d ∷ e ∷ l) c = last_slot-append (e ∷ l) c

amend_last-append :
    (f : QueuedCommand → QueuedCommand) (l : Slots) (c : QueuedCommand)
    → amend_last f (l ++ (some c ∷ [])) ≡ l ++ (some (f c) ∷ [])
amend_last-append f [] c = refl
amend_last-append f (none ∷ []) c = refl
amend_last-append f (some d ∷ []) c = refl
amend_last-append f (d ∷ e ∷ l) c = ap (◌∷◌ d) (amend_last-append f (e ∷ l) c)

last_slot-window :
    (cs : Slots) (h n : ℕ)
    → h < command_capacity
    → last_slot (window cs h (suc n)) ≡ slot_of cs ((h + n) % command_capacity)
last_slot-window cs h n hh =
    ap last_slot (window-last cs h n hh) ∙ last_slot-append (window cs h n) _

abbrev stops : Option QueuedCommand → Bool
stops c = holds c (λ x. is_stop x.command)

trailing_at :
    (cs : Slots) (h t n : ℕ)
    → h < command_capacity
    → t ≡ (h + n) % command_capacity
    → (if n == 0 then false else stops (slot_of cs (previous t)))
      ≡ stops (last_slot (window cs h n))
trailing_at cs h t zero hh e = refl
trailing_at cs h t (suc n) hh e =
    let more : (suc n == 0) ≡ false = ground arith in
    rw more (ap stops (ap (slot_of cs) (omega arith) ∙ sym (last_slot-window cs h n hh)))

trailing_stop_is_pending-last :
    (q : CommandQueue) → IsRing q → trailing_stop_is_pending q ≡ stops (last_slot (contents q))
unfolding trailing_stop_is_pending
trailing_stop_is_pending-last q r = trailing_at q.commands q.head q.tail q.count r.head_in r.tail_at

-- Both sides in terms of the last place, for a queue that is not empty.
coalesce_at :
    (f : QueuedCommand → QueuedCommand) (cs : Slots) (h t n : ℕ) (c : QueuedCommand)
    → length cs ≡ command_capacity
    → h < command_capacity
    → 0 < n
    → n ≤ command_capacity
    → t ≡ (h + n) % command_capacity
    → slot_of cs (previous t) ≡ some c
    → window (set cs (previous t) (some (f c))) h n ≡ amend_last f (window cs h n)
coalesce_at f cs h t zero c full hh pos hn e s = absurd (omega arith)
coalesce_at f cs h t (suc n) c full hh pos hn e s =
    let at : previous t ≡ (h + n) % command_capacity = omega arith in
    let here : window cs h (suc n) ≡ window cs h n ++ (some c ∷ []) =
      window-last cs h n hh ∙ ap (λ x. window cs h n ++ (x ∷ [])) (ap (slot_of cs) (sym at) ∙ s) in
    ap (λ i. window (set cs i (some (f c))) h (suc n)) at
    ∙ window-set_last cs h n (some (f c)) full hh (omega arith)
    ∙ sym (ap (amend_last f) here ∙ amend_last-append f (window cs h n) c)

pub enqueue-contents :
    (m : Command) (id : ℕ) (q : CommandQueue)
    → IsRing q
    → q.count < command_capacity
    → contents (enqueue m id q) ≡ contents q ++ (some (queued m id) ∷ [])
unfolding enqueue
enqueue-contents m id q r room =
    ap (window (enqueue m id q).commands q.head) {y = suc q.count} (omega arith)
    ∙ ap (λ i. window (set q.commands i (some (queued m id))) q.head (suc q.count)) r.tail_at
    ∙ window-set_last q.commands q.head q.count _ r.full r.head_in room

pub coalesce_trailing-some :
    (id : ℕ) (q : CommandQueue) (c : QueuedCommand)
    → slot q (previous q.tail) ≡ some c
    → coalesce_trailing id q
      ≡ record q { commands = set q.commands (previous q.tail) (some (coalesce id c)) }
unfolding coalesce_trailing
coalesce_trailing-some id q c e = rw (e, coalesce_trailing) refl

-- A queue that ends with a Stop has one in its last place.
pub trailing_some :
    (q : CommandQueue)
    → trailing_stop_is_pending q ≡ true
    → (c : QueuedCommand) × (slot q (previous q.tail) ≡ some c)
      × (is_stop c.command ≡ true)
      × (0 < q.count)
unfolding trailing_stop_is_pending
trailing_some q t = elim (Option-cases (slot q (previous q.tail))) [
  | inl e ↦ absurd (ground arith)
  | inr (c, e) ↦ (c, e, ground arith, ground arith)
]

pub coalesce_trailing-contents :
    (id : ℕ) (q : CommandQueue)
    → IsRing q
    → trailing_stop_is_pending q ≡ true
    → contents (coalesce_trailing id q) ≡ amend_last (coalesce id) (contents q)
coalesce_trailing-contents id q r t =
    let (c, e, stop, pos) = trailing_some q t in
    ap contents (coalesce_trailing-some id q c e)
    ∙ coalesce_at (coalesce id) q.commands q.head q.tail q.count c r.full r.head_in pos r.count_in
        r.tail_at e

pub record_command_result-queue :
    (id : ℕ) (ok : Bool) (a : App) → (record_command_result id ok a).queue ≡ a.queue
unfolding record_command_result
record_command_result-queue id ok a = ground arith

-- `submit` implements its contract: the sequence of queued commands and the answer are those of
-- `submit_list`. A Stop behind a Stop joins it with its id; otherwise a full queue, at 16 commands
-- for a Stop and at 15 for any other, refuses the command and stays; otherwise it goes to the end.
pub submit_refines :
    (m : Command) (id : ℕ) (a : App)
    → IsRing a.queue
    → (contents (submit m id a).0.queue ≡ (submit_list m id (contents a.queue)).0)
      × ((submit m id a).1 ≡ (submit_list m id (contents a.queue)).1)
unfolding submit
submit_refines m id a r = ground (
  arith,
  trailing_stop_is_pending-last a.queue r,
  length-window a.queue.commands a.queue.head a.queue.count,
  enqueue-contents m id a.queue r,
  coalesce_trailing-contents id a.queue r,
  record_command_result-queue id false
      (record a { queue = record (a.queue) { overflow_count = u32 (a.queue.overflow_count + 1) } }),
)
