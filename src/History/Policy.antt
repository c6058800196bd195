-- ===== src/History/Policy.antt =====
-- components/smoker_platform: `HistoryWritePolicy` of history_support.hpp, and the round of the history
-- task in components/smoker_platform/src/history_service.cpp that calls it.
pub mod Order
pub mod Ends
use smoker_firmware.Common.{
  ℕ, zero, suc, ◌+◌, List, [], ◌∷◌, ◌++◌, Bool, true, false, Option, none, some, if◌then◌else◌,
  has_value,
}
use smoker_firmware.Common.Int.{ℤ}
use smoker_firmware.History.{ObservationKind, StorageState, Observation}

pub data CycleResult : Type 0 where
  no_observation written retry_lifecycle dropped_ordinary terminal_fail_stop stopped : CycleResult

pub record WriteAttempt : Type 0 where
  pub written : Bool
  pub storage_state : StorageState

pub record WritePolicy : Type 0 where
  pub pending_lifecycle : Option Observation
  pub terminal : Bool

abbrev pub new_policy : WritePolicy
new_policy = record { pending_lifecycle = none; terminal = false }

abbrev pub is_failed : StorageState → Bool
is_failed StorageState.failed = true
is_failed _ = false

abbrev pub is_lifecycle : ObservationKind → Bool
is_lifecycle ObservationKind.start = true
is_lifecycle ObservationKind.end = true
is_lifecycle _ = false

-- `selected`: the observation that waits, or else the one that came.
abbrev pub selected : Option Observation → Option Observation → Option Observation
selected (some p) incoming = some p
selected none incoming = incoming

-- What the policy makes of the writer's answer.
unfoldable pub settle : WritePolicy → Observation → WriteAttempt → CycleResult × WritePolicy
settle p o attempt =
    if attempt.written
    then (CycleResult.written, record p { pending_lifecycle = none })
    else if is_failed attempt.storage_state
    then (CycleResult.terminal_fail_stop, record { pending_lifecycle = none; terminal = true })
    else if is_lifecycle o.kind
    then (
      CycleResult.retry_lifecycle,
      record p {
        pending_lifecycle = if has_value p.pending_lifecycle then p.pending_lifecycle else some o;
      },
    )
    else (CycleResult.dropped_ordinary, p)

-- The writer has a state, and answers for an observation.
module _ {S : Type 0} (writer : S → Observation → WriteAttempt × S) where
  abbrev pub process_selected : Option Observation → WritePolicy → S → CycleResult × WritePolicy × S
  unfolding settle
  process_selected none p s = (CycleResult.no_observation, p, s)
  process_selected (some o) p s =
      let (attempt, t) = writer s o in let (result, q) = settle p o attempt in (result, q, t)

  unfoldable pub process : Option Observation → WritePolicy → S → CycleResult × WritePolicy × S
  unfolding process_selected
  process incoming p s =
      if p.terminal
      then (CycleResult.stopped, p, s)
      else process_selected (selected p.pending_lifecycle incoming) p s

abbrev pub with_time : Option ℤ → Observation → Observation
with_time now o = if has_value o.unix_utc_seconds then o else record o { unix_utc_seconds = now }

-- What the task keeps between two rounds: the mailbox, oldest first, the policy, and the writer's
-- state. `admitted` lists what has come into the mailbox, oldest first.
pub record HistoryTask (S : Type 0) : Type 0 where
  pub mailbox : List Observation
  pub policy : WritePolicy
  pub state : S
  pub admitted : List Observation

module _ {S : Type 0} (writer : S → Observation → WriteAttempt × S) (clock : S → Option ℤ) where
  abbrev pub after_process :
      HistoryTask S → List Observation → CycleResult × WritePolicy × S → HistoryTask S
  after_process h rest (result, q, t) = record h { mailbox = rest; policy = q; state = t }

  -- A round with the flash: the mailbox is read only where no observation waits.
  abbrev pub round_on : HistoryTask S → List Observation → Option Observation → HistoryTask S
  unfolding process
  round_on h mailbox (some p) = after_process h mailbox (process writer none h.policy h.state)
  round_on h (o ∷ mailbox) none =
      let incoming = with_time (clock h.state) o in
      after_process h mailbox (process writer (some incoming) h.policy h.state)
  round_on h [] none = h

  -- After a terminal failure the task has left its loop.
  unfoldable pub history_round : HistoryTask S → HistoryTask S
  unfolding round_on
  history_round h = if h.policy.terminal then h else round_on h h.mailbox h.policy.pending_lifecycle

  unfoldable pub history_rounds : ℕ → HistoryTask S → HistoryTask S
  history_rounds zero h = h
  history_rounds (suc n) h = history_rounds n (history_round h)

-- The producer adds an observation.
unfoldable pub admit : {S : Type 0} → Observation → HistoryTask S → HistoryTask S
admit o h = record h { mailbox = h.mailbox ++ (o ∷ []); admitted = h.admitted ++ (o ∷ []) }

abbrev pub new_task : {S : Type 0} → S → HistoryTask S
new_task s = record { mailbox = []; policy = new_policy; state = s; admitted = [] }
