-- ===== src/App/Queue/Kept.antt =====
-- components/smoker_app/src/smoker_application.cpp: `submit` keeps the ring.
use smoker_firmware.Common.{
  ℕ, ◌<◌, [], ◌∷◌, true, false, ◌&&◌, Option, none, some, arith, holds, ◌==◌, leb, ◌≡◌, refl, sym,
  ap, ◌∙◌, subst, length, set, All, All-append, length-set, get_elem?-set_self, Bool-cases, inl,
  inr,
}
use smoker_firmware.App.Commands.{Command, is_stop}
use smoker_firmware.App.State.{App, QueuedCommand, CommandQueue, record_command_result}
use smoker_firmware.App.Queue.{
  next, previous, trailing_stop_is_pending, coalesce, coalesce_trailing, enqueue, admission_limit,
  submit,
}
use smoker_firmware.App.Queue.Ring.{Slots, slot_of, contents, IsCommand, IsRing}
use smoker_firmware.App.Queue.Refine.{
  queued, amend_last, enqueue-contents, coalesce_trailing-some, trailing_some,
  coalesce_trailing-contents, record_command_result-queue,
}

slot-set_self :
    (cs : Slots) (i j : ℕ) (v : Option QueuedCommand)
    → j ≡ i
    → i < length cs
    → slot_of (set cs i v) j ≡ v
slot-set_self cs i j v e h = rw (e, get_elem?-set_self cs i v h, slot_of) refl

amend_last-All :
    (f : QueuedCommand → QueuedCommand) (l : Slots)
    → All IsCommand l
    → All IsCommand (amend_last f l)
amend_last-All f [] v = v
amend_last-All f (none ∷ []) v = v
amend_last-All f (some c ∷ []) v = (refl, tt)
amend_last-All f (none ∷ d ∷ l) v = (v.0, amend_last-All f (d ∷ l) v.1)
amend_last-All f (some c ∷ d ∷ l) v = (v.0, amend_last-All f (d ∷ l) v.1)

enqueue-IsRing :
    (m : Command) (id : ℕ) (q : CommandQueue)
    → IsRing q
    → leb (admission_limit m) q.count ≡ false
    → IsRing (enqueue m id q)
unfolding enqueue
enqueue-IsRing m id q r room = record {
  full = length-set q.commands q.tail (some (queued m id)) ∙ r.full;
  head_in = r.head_in;
  tail_at = ground (arith, r.tail_at);
  count_in = ground arith;
  filled =
      subst (All IsCommand) (sym (enqueue-contents m id q r (ground arith)))
        (All-append IsCommand (contents q) (some (queued m id) ∷ []) r.filled (refl, tt));
  last_stop = λ e.
      ap (λ c. holds c (λ x. is_stop x.command))
        (slot-set_self q.commands q.tail (previous (next q.tail)) (some (queued m id))
          (ground (arith, r.tail_at)) (ground (arith, r.tail_at, r.full)))
      ∙ ground arith;
}

coalesce-stop :
    (id : ℕ) (c : QueuedCommand) → is_stop c.command ≡ true → is_stop (coalesce id c).command ≡ true
unfolding coalesce
coalesce-stop id c h = h

coalesce_trailing-IsRing :
    (id : ℕ) (q : CommandQueue)
    → IsRing q
    → trailing_stop_is_pending q ≡ true
    → IsRing (coalesce_trailing id q)
coalesce_trailing-IsRing id q r t =
    let (c, e, stop, pos) = trailing_some q t in
    let same = coalesce_trailing-some id q c e in
    subst IsRing (sym same) (record {
      full = length-set q.commands (previous q.tail) (some (coalesce id c)) ∙ r.full;
      head_in = r.head_in;
      tail_at = r.tail_at;
      count_in = r.count_in;
      filled =
          subst (All IsCommand) (sym (coalesce_trailing-contents id q r t) ∙ ap contents same)
            (amend_last-All (coalesce id) (contents q) r.filled);
      last_stop = λ _.
          ap (λ x. holds x (λ y. is_stop y.command))
            (slot-set_self q.commands (previous q.tail) (previous q.tail) (some (coalesce id c))
              refl (ground (arith, r.full)))
          ∙ coalesce-stop id c stop;
    })

refused-IsRing :
    (id n : ℕ) (a : App)
    → IsRing a.queue
    → IsRing
        (record_command_result id false
          (record a { queue = record (a.queue) { overflow_count = n } })).queue
refused-IsRing id n a r = subst IsRing (sym (record_command_result-queue id false _)) (record {
  full = r.full;
  head_in = r.head_in;
  tail_at = r.tail_at;
  count_in = r.count_in;
  filled = r.filled;
  last_stop = r.last_stop;
})

-- `submit` keeps the ring, whatever it answers.
pub submit-IsRing :
    (m : Command) (id : ℕ) (a : App) → IsRing a.queue → IsRing (submit m id a).0.queue
unfolding submit
submit-IsRing m id a r = elim (Bool-cases (is_stop m && trailing_stop_is_pending a.queue)) [
  | inl joins ↦ elim (Bool-cases (id == 0)) [
    | inl quiet ↦ rw (joins, quiet) r
    | inr tagged ↦ rw (joins, tagged) (coalesce_trailing-IsRing id a.queue r (ground arith))
  ]
  | inr apart ↦ elim (Bool-cases (leb (admission_limit m) a.queue.count)) [
    | inl full ↦ rw (apart, full) (refused-IsRing id _ a r)
    | inr room ↦ rw (apart, room) (enqueue-IsRing m id a.queue r room)
  ]
]
