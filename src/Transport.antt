-- ===== src/Transport.antt =====
-- components/smoker_platform: runtime_transport_support.hpp and runtime_transport_support.cpp.

pub mod Bounds
pub mod Ids
pub mod Admission
use smoker_firmware.Common.{
  List, [], ◌∷◌, ℕ, zero, suc, ◌+◌, ◌-◌, ◌%◌, ◌^◌, Bool, true, false, not, ◌&&◌, ◌||◌, Option, none,
  some, if◌then◌else◌, ◌==◌, ltb,
}
use smoker_firmware.App.Commands.{Command, is_stop}
use smoker_firmware.Mailbox.{
  TransportCommand, Mailbox, try_pop, add_word, regular_admission_capacity,
}

abbrev pub internal_ota_correlation_id : ℕ
internal_ota_correlation_id = 4294967294

abbrev pub reserved_id : ℕ → Bool
reserved_id value = value == 0 || value == internal_ota_correlation_id

-- The loop of `next_valid` on a sequence that other callers draw from too: one round for each number of
-- the list, which is how often the others draw just before the `fetch_add` of this round. The value
-- that the call returns, and the sequence after it; none where the rounds do not suffice.
unfoldable pub next_valid : List ℕ → ℕ → Option ℕ × ℕ
next_valid [] sequence = (none, sequence)
next_valid (others ∷ later) sequence =
    let value = add_word sequence others in
    let rest = next_valid later (add_word value 1) in
    if reserved_id value then rest else (some value, add_word value 1)

-- `ready_` before the call; the answer and `ready_` after it.
unfoldable pub observe_cycle : Bool → Bool → Bool → Bool × Bool
observe_cycle ready snapshot_published watchdog_reset_succeeded =
    if ready || (not snapshot_published || not watchdog_reset_succeeded)
    then (false, ready)
    else (true, true)

abbrev pub external_budget_per_cycle : ℕ
external_budget_per_cycle = regular_admission_capacity - 2

-- The two mailboxes, `blynk_first_`, what the submit function has made of its context, and the
-- result so far.
pub record Draining {ℓ} (S : Type ℓ) : Type ℓ where
  pub http : Mailbox
  pub blynk : Mailbox
  pub blynk_first : Bool
  pub context : S
  pub submitted : ℕ
  pub discarded : ℕ
  pub stopped_at_barrier : Bool

-- A command that is delivered has been stored before, so its slot is not empty.
abbrev pub delivered : Option (Option TransportCommand) → Option TransportCommand
delivered (some c) = c
delivered none = none

module _ {ℓ} {S : Type ℓ} where
  -- `try_pop` on one of the two mailboxes: Blynk where the first argument is true.
  unfoldable pub pop : Bool → Draining S → Option TransportCommand × Draining S
  unfolding try_pop
  pop true d = let r = try_pop d.blynk in (delivered r.0, record d { blynk = r.1 })
  pop false d = let r = try_pop d.http in (delivered r.0, record d { http = r.1 })

  abbrev pub with_source :
      Bool → Option TransportCommand × Draining S → Option (Bool × TransportCommand) × Draining S
  with_source b (some c, d) = (some (b, c), d)
  with_source b (none, d) = (none, d)

  abbrev pub or_alternate :
      Bool → Option TransportCommand × Draining S → Option (Bool × TransportCommand) × Draining S
  unfolding pop
  or_alternate b (some c, d) = (some (b, c), d)
  or_alternate b (none, d) = with_source (not b) (pop (not b) d)

  -- The preferred mailbox, or else the other one, and which of them it was.
  unfoldable pub take_next : Draining S → Option (Bool × TransportCommand) × Draining S
  unfolding pop or_alternate
  take_next d = or_alternate d.blynk_first (pop d.blynk_first d)

  module _ (submit : S → Command → ℕ → S) (validate : Option (ℕ → Bool)) where
    abbrev pub is_stale : Bool → ℕ → Bool
    is_stale from_blynk generation = elim validate [
      | none ↦ false
      | some valid ↦ from_blynk && not (valid generation)
    ]

    -- What becomes of a popped command; the Boolean says that the loop goes on.
    unfoldable pub deliver : Bool → TransportCommand → Draining S → Bool × Draining S
    deliver from_blynk c d =
        if is_stale from_blynk c.transport_generation
        then (true, record d { blynk_first = not d.blynk_first; discarded = d.discarded + 1 })
        else (
          not (is_stop c.command),
          record d {
            blynk_first = not d.blynk_first;
            context = submit d.context c.command c.correlation_id;
            submitted = d.submitted + 1;
            stopped_at_barrier = d.stopped_at_barrier || is_stop c.command;
          },
        )

    abbrev pub deliver_next : Option (Bool × TransportCommand) × Draining S → Bool × Draining S
    unfolding deliver
    deliver_next (some (b, c), d) = deliver b c d
    deliver_next (none, d) = (false, d)

    -- One round of the loop, without its test.
    unfoldable pub round : Draining S → Bool × Draining S
    unfolding deliver_next take_next
    round d = deliver_next (take_next d)

    -- The loop of `drain`, on fuel.
    unfoldable pub drain_loop : ℕ → Draining S → Draining S
    drain_loop zero d = d
    drain_loop (suc fuel) d =
        let rest = drain_loop fuel (round d).1 in
        if ltb (d.submitted + d.discarded) external_budget_per_cycle
        then if (round d).0 then rest else (round d).1
        else d

  -- `drain`: without a submit function nothing is popped. Each round that goes on counts one command,
  -- so the budget is fuel enough.
  unfoldable pub drain_mailboxes :
      Option (S → Command → ℕ → S) → Option (ℕ → Bool) → Draining S → Draining S
  drain_mailboxes none validate d = d
  drain_mailboxes (some submit) validate d = drain_loop submit validate external_budget_per_cycle d

  -- The result at the begin of `drain`.
  abbrev pub begin_drain : Mailbox → Mailbox → Bool → S → Draining S
  begin_drain http blynk blynk_first context = record {
    http = http;
    blynk = blynk;
    blynk_first = blynk_first;
    context = context;
    submitted = 0;
    discarded = 0;
    stopped_at_barrier = false;
  }
