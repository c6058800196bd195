-- ===== src/History/Policy/Ends.antt =====
-- components/smoker_platform: the mailbox of the history task is emptied.
use smoker_firmware.Common.{
  ℕ, zero, suc, ◌+◌, ◌-◌, ◌≤◌, ◌≡◌, refl, sym, ap, subst, ◌∙◌, List, [], ◌∷◌, true, false, Option,
  none, some, arith, if◌then◌else◌, has_value, length,
}
use smoker_firmware.Common.Int.{ℤ}
use smoker_firmware.History.{Observation}
use smoker_firmware.History.Policy.{
  CycleResult, WriteAttempt, WritePolicy, selected, settle, process_selected, process, with_time,
  HistoryTask, after_process, round_on, history_round, history_rounds,
}
use smoker_firmware.History.Policy.Order.{process-some}

-- Observations that wait or are in the mailbox.
abbrev pub backlog : {S : Type 0} → HistoryTask S → ℕ
backlog h = (if has_value h.policy.pending_lifecycle then 1 else 0) + length h.mailbox

module _ {S : Type 0} (writer : S → Observation → WriteAttempt × S) (clock : S → Option ℤ)
    (works : (x : S) (o : Observation) → (writer x o).0.written ≡ true) where
  -- What a call of the policy leaves when the writer has written.
  settle-written :
      (p : WritePolicy) (o : Observation) (t : WriteAttempt)
      → t.written ≡ true
      → settle p o t ≡ (CycleResult.written, record p { pending_lifecycle = none })
  unfolding settle
  settle-written p o t w = rw w refl

  process-written :
      (incoming : Option Observation) (p : WritePolicy) (x : S) (o : Observation)
      → p.terminal ≡ false
      → selected p.pending_lifecycle incoming ≡ some o
      → process writer incoming p x
        ≡ (CycleResult.written, record p { pending_lifecycle = none }, (writer x o).1)
  unfolding process_selected
  process-written incoming p x o t e =
      process-some writer clock incoming p x o t e
      ∙ ap (λ (r : CycleResult × WritePolicy). (r.0, r.1, (writer x o).1))
          (settle-written p o (writer x o).0 (works x o))

  -- The task is still at work, and the backlog is shorter by one.
  abbrev IsShorter : HistoryTask S → HistoryTask S → Type 0
  IsShorter h g = (g.policy.terminal ≡ false) × (backlog g ≤ backlog h - 1)

  round_on-IsShorter :
      (h : HistoryTask S) (mailbox : List Observation) (waits : Option Observation)
      → h.mailbox ≡ mailbox
      → h.policy.pending_lifecycle ≡ waits
      → h.policy.terminal ≡ false
      → IsShorter h (round_on writer clock h mailbox waits)
  unfolding round_on
  round_on-IsShorter h mailbox (some o) m e t =
      subst (λ r. IsShorter h (after_process writer clock h mailbox r))
        (sym (process-written none h.policy h.state o t (ap (λ w. selected w none) e)))
        (t, omega (arith, ap length m, ap {B = ℕ} (λ w. if has_value w then 1 else 0) e))
  round_on-IsShorter h (o ∷ mailbox) none m e t =
      let x = with_time (clock h.state) o in
      subst (λ r. IsShorter h (after_process writer clock h mailbox r))
        (sym (process-written (some x) h.policy h.state x t (ap (λ w. selected w (some x)) e)))
        (t, omega (arith, ap length m, ap {B = ℕ} (λ w. if has_value w then 1 else 0) e))
  round_on-IsShorter h [] none m e t =
      (t, omega (arith, ap length m, ap {B = ℕ} (λ w. if has_value w then 1 else 0) e))

  round-IsShorter :
      (h : HistoryTask S) → h.policy.terminal ≡ false → IsShorter h (history_round writer clock h)
  unfolding history_round
  round-IsShorter h t =
      subst
        (λ b.
          IsShorter h
            (if b then h else round_on writer clock h h.mailbox h.policy.pending_lifecycle))
        (sym t) (round_on-IsShorter h h.mailbox h.policy.pending_lifecycle refl refl t)

  -- If the writer writes whatever it is given, as many rounds as there are observations in the
  -- mailbox, and one more for an observation that waits, leave nothing behind: the mailbox is empty,
  -- nothing waits, and the task is still at work.
  pub history_rounds_empty :
      (n : ℕ) (h : HistoryTask S)
      → h.policy.terminal ≡ false
      → backlog h ≤ n
      → ((history_rounds writer clock n h).policy.terminal ≡ false)
        × (backlog (history_rounds writer clock n h) ≡ 0)
  unfolding history_rounds
  history_rounds_empty zero h t b = (t, omega (arith, b))
  history_rounds_empty (suc n) h t b =
      let (u, less) = round-IsShorter h t in
      history_rounds_empty n (history_round writer clock h) u (omega (arith, b, less))
