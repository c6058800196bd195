-- ===== src/History/Policy/Order.antt =====
-- components/smoker_platform: no Start and no End of a session is lost on its way to the flash.
use smoker_firmware.Common.{
  ◌≡◌, refl, sym, ap, ◌∙◌, List, [], ◌∷◌, ◌++◌, Bool, false, Bool-cases, Option, none, some, arith,
  ◌⊎◌, inl, inr, if◌then◌else◌,
}
use smoker_firmware.Common.Int.{ℤ}
use mathlib.Core.List.{append_assoc, append-nil}
use smoker_firmware.History.{Observation}
use smoker_firmware.History.Policy.{
  CycleResult, WriteAttempt, WritePolicy, is_failed, is_lifecycle, selected, settle,
  process_selected, process, with_time, HistoryTask, after_process, round_on, history_round, admit,
  new_task,
}

-- A Start or an End without its wall-clock time, which the task may add; nothing for any other.
abbrev pub lifecycle : Observation → List Observation
lifecycle o = if is_lifecycle o.kind then record o { unix_utc_seconds = none } ∷ [] else []

abbrev pub lifecycles : List Observation → List Observation
lifecycles [] = []
lifecycles (o ∷ os) = lifecycle o ++ lifecycles os

abbrev pub waiting : Option Observation → List Observation
waiting none = []
waiting (some o) = lifecycle o

lifecycles-append :
    (xs ys : List Observation) → lifecycles (xs ++ ys) ≡ lifecycles xs ++ lifecycles ys
lifecycles-append [] ys = refl
lifecycles-append (x ∷ xs) ys =
    ap (◌++◌ (lifecycle x)) (lifecycles-append xs ys)
    ∙ sym (append_assoc (lifecycle x) (lifecycles xs) (lifecycles ys))

lifecycle-with_time : (now : Option ℤ) (o : Observation) → lifecycle (with_time now o) ≡ lifecycle o
lifecycle-with_time now o = ground arith

-- What a call of the writer adds to its own record of what it has written: the observation that it was
-- given, where it answers that it has written.
abbrev pub written_by : WriteAttempt → Observation → List Observation
written_by attempt o = if attempt.written then o ∷ [] else []

-- A writer that keeps beside its state the observations it was given and has written, oldest first.
abbrev pub recording :
    {S : Type 0}
    → (S → Observation → WriteAttempt × S)
    → S × List Observation
    → Observation
    → WriteAttempt × (S × List Observation)
recording writer (x, log) o =
    let (attempt, y) = writer x o in (attempt, (y, log ++ written_by attempt o))

-- Written, as the writer has it, waiting, and still in the mailbox, in this order.
abbrev pub ledger : {S : Type 0} → HistoryTask (S × List Observation) → List Observation
ledger h = lifecycles h.state.1 ++ (waiting h.policy.pending_lifecycle ++ lifecycles h.mailbox)

-- The observation that the policy hands to the writer: the one that waits, or a new one.
abbrev pub IsChosen : Option Observation → Observation → Type 0
IsChosen waits o = (waits ≡ none) ⊎ (waits ≡ some o)

-- A settled observation is written, or waits, or is not of the lifecycle.
settle-lifecycle :
    (waits : Option Observation) (terminal : Bool) (o : Observation) (t : WriteAttempt)
    → IsChosen waits o
    → (settle (record { pending_lifecycle = waits; terminal = terminal }) o t).1.terminal ≡ false
    → lifecycles (written_by t o)
        ++ waiting
            (settle
              (record { pending_lifecycle = waits; terminal = terminal })
              o
              t).1.pending_lifecycle
      ≡ lifecycle o
unfolding settle
settle-lifecycle waits terminal o t c h = elim (Bool-cases t.written) [
  | inl w ↦ rw w (append-nil (lifecycle o ++ []) ∙ append-nil (lifecycle o))
  | inr w ↦ elim (Bool-cases (is_failed t.storage_state)) [
    | inl f ↦ ground (arith, h, w, f)
    | inr f ↦ elim (Bool-cases (is_lifecycle o.kind)) [
      | inl k ↦ elim c [ inl e ↦ rw (w, f, k, e, k) refl | inr e ↦ rw (w, f, k, e, k) refl ]
      | inr k ↦ elim c [ inl e ↦ rw (w, f, k, e) refl | inr e ↦ rw (w, f, k, e, k) refl ]
    ]
  ]
]

module _ {S : Type 0} (writer : S → Observation → WriteAttempt × S) (clock : S → Option ℤ) where
  pub process-some :
      (incoming : Option Observation) (p : WritePolicy) (x : S) (o : Observation)
      → p.terminal ≡ false
      → selected p.pending_lifecycle incoming ≡ some o
      → process writer incoming p x ≡ process_selected writer (some o) p x
  unfolding process
  process-some incoming p x o t e =
      ap
        (λ b.
          if b
          then (CycleResult.stopped, p, x)
          else process_selected writer (selected p.pending_lifecycle incoming) p x)
        t
      ∙ ap (λ y. process_selected writer y p x) e

module _ {S : Type 0} (bare : S → Observation → WriteAttempt × S) (bare_clock : S → Option ℤ) where
  -- The writer with its record, and the clock beside it.
  abbrev pub writer : S × List Observation → Observation → WriteAttempt × (S × List Observation)
  writer = recording bare

  abbrev pub clock : S × List Observation → Option ℤ
  clock x = bare_clock x.0

  -- One observation goes through the policy; `rest` is the mailbox after it.
  after-ledger :
      (h : HistoryTask (S × List Observation)) (rest : List Observation) (o : Observation)
      → IsChosen h.policy.pending_lifecycle o
      → (settle h.policy o (writer h.state o).0).1.terminal ≡ false
      → ledger
          (after_process writer clock h rest (process_selected writer (some o) h.policy h.state))
        ≡ lifecycles h.state.1 ++ (lifecycle o ++ lifecycles rest)
  unfolding process_selected settle
  after-ledger h rest o c e =
      let w = written_by (writer h.state o).0 o in
      let q = waiting (settle h.policy o (writer h.state o).0).1.pending_lifecycle in
      ap (λ l. l ++ (q ++ lifecycles rest)) (lifecycles-append h.state.1 w)
      ∙ append_assoc (lifecycles h.state.1) (lifecycles w) (q ++ lifecycles rest)
      ∙ ap (◌++◌ (lifecycles h.state.1)) (
          sym (append_assoc (lifecycles w) q (lifecycles rest))
          ∙ ap (λ l. l ++ lifecycles rest)
              (settle-lifecycle h.policy.pending_lifecycle h.policy.terminal o (writer h.state o).0
                c e))

  -- One call of the policy in a round.
  call-ledger :
      (h : HistoryTask (S × List Observation)) (incoming : Option Observation)
      (rest : List Observation) (o : Observation)
      → h.policy.terminal ≡ false
      → selected h.policy.pending_lifecycle incoming ≡ some o
      → IsChosen h.policy.pending_lifecycle o
      → (after_process writer clock h rest
          (process writer incoming h.policy h.state)).policy.terminal
        ≡ false
      → ledger (after_process writer clock h rest (process writer incoming h.policy h.state))
        ≡ lifecycles h.state.1 ++ (lifecycle o ++ lifecycles rest)
  unfolding process_selected
  call-ledger h incoming rest o t e c d =
      let p = process-some writer clock incoming h.policy h.state o t e in
      ap (λ r. ledger (after_process writer clock h rest r)) p
      ∙ after-ledger h rest o c (
          sym (ap (λ (r : CycleResult × WritePolicy × (S × List Observation)). r.1.terminal) p) ∙ d)

  -- A round that does not end in a terminal failure keeps the ledger.
  round_on-ledger :
      (h : HistoryTask (S × List Observation)) (mailbox : List Observation)
      (waits : Option Observation)
      → h.mailbox ≡ mailbox
      → h.policy.pending_lifecycle ≡ waits
      → h.policy.terminal ≡ false
      → (round_on writer clock h mailbox waits).policy.terminal ≡ false
      → ledger (round_on writer clock h mailbox waits) ≡ ledger h
  unfolding round_on
  round_on-ledger h mailbox (some o) m e t d =
      call-ledger h none mailbox o t (ap (λ w. selected w none) e) (inr e) d
      ∙ ap (λ w. lifecycles h.state.1 ++ (waiting w ++ lifecycles mailbox)) (sym e)
      ∙ ap (λ l. lifecycles h.state.1 ++ (waiting h.policy.pending_lifecycle ++ lifecycles l))
          (sym m)
  round_on-ledger h (o ∷ mailbox) none m e t d =
      let x = with_time (clock h.state) o in
      call-ledger h (some x) mailbox x t (ap (λ w. selected w (some x)) e) (inl e) d
      ∙ ap (λ l. lifecycles h.state.1 ++ (l ++ lifecycles mailbox))
          (lifecycle-with_time (clock h.state) o)
      ∙ ap (λ w. lifecycles h.state.1 ++ (waiting w ++ lifecycles (o ∷ mailbox))) (sym e)
      ∙ ap (λ l. lifecycles h.state.1 ++ (waiting h.policy.pending_lifecycle ++ lifecycles l))
          (sym m)
  round_on-ledger h [] none m e t d = refl

  round_on-admitted :
      (h : HistoryTask (S × List Observation)) (mailbox : List Observation)
      (waits : Option Observation)
      → (round_on writer clock h mailbox waits).admitted ≡ h.admitted
  unfolding round_on
  round_on-admitted h mailbox (some o) = refl
  round_on-admitted h (o ∷ mailbox) none = refl
  round_on-admitted h [] none = refl

  -- The history task, with the writer recorded, and the producer of the mailbox, in any order.
  pub data Reach : HistoryTask (S × List Observation) → Type 0 where
    here : {x : S} → Reach (new_task (x, []))
    admitting :
        {h : HistoryTask (S × List Observation)} (o : Observation) → Reach h → Reach (admit o h)
    working :
        {h : HistoryTask (S × List Observation)} → Reach h → Reach (history_round writer clock h)

  admit-ledger :
      (h : HistoryTask (S × List Observation)) (o : Observation)
      → ledger (admit o h) ≡ ledger h ++ lifecycle o
  unfolding admit
  admit-ledger h o =
      let w = waiting h.policy.pending_lifecycle in
      ap (λ l. lifecycles h.state.1 ++ (w ++ l))
        (lifecycles-append h.mailbox (o ∷ [])
          ∙ ap (◌++◌ (lifecycles h.mailbox)) (append-nil (lifecycle o)))
      ∙ ap (◌++◌ (lifecycles h.state.1)) (sym (append_assoc w (lifecycles h.mailbox) (lifecycle o)))
      ∙ sym (append_assoc (lifecycles h.state.1) (w ++ lifecycles h.mailbox) (lifecycle o))

  round-ledger :
      (h : HistoryTask (S × List Observation))
      → (history_round writer clock h).policy.terminal ≡ false
      → (h.policy.terminal ≡ false) × (ledger (history_round writer clock h) ≡ ledger h)
  unfolding history_round
  round-ledger h d = elim (Bool-cases h.policy.terminal) [
    | inl t ↦ absurd (
        cc (
          t,
          ap
                (λ b.
                  (if b
                    then h
                    else round_on writer clock h h.mailbox
                        h.policy.pending_lifecycle).policy.terminal)
                (sym t)
              ∙ d,
        ))
    | inr t ↦
        let e : history_round writer clock h
            ≡ round_on writer clock h h.mailbox h.policy.pending_lifecycle =
          ap (λ b. if b then h else round_on writer clock h h.mailbox h.policy.pending_lifecycle)
            t in
        (
          t,
          ap ledger e
              ∙ round_on-ledger h h.mailbox h.policy.pending_lifecycle refl refl t
                  (sym (ap (λ (g : HistoryTask (S × List Observation)). g.policy.terminal) e) ∙ d),
        )
  ]

  round-admitted :
      (h : HistoryTask (S × List Observation))
      → (history_round writer clock h).admitted ≡ h.admitted
  unfolding history_round
  round-admitted h = elim (Bool-cases h.policy.terminal) [
    | inl t ↦
        ap
          (λ b.
            (if b
              then h
              else round_on writer clock h h.mailbox h.policy.pending_lifecycle).admitted)
          t
    | inr t ↦
        ap
          (λ b.
            (if b
              then h
              else round_on writer clock h h.mailbox h.policy.pending_lifecycle).admitted)
          t
        ∙ round_on-admitted h h.mailbox h.policy.pending_lifecycle
  ]

  admit_terminal :
      (h : HistoryTask (S × List Observation)) (o : Observation)
      → (admit o h).policy.terminal ≡ false
      → h.policy.terminal ≡ false
  unfolding admit
  admit_terminal h o t = t

  admitted_last :
      (h : HistoryTask (S × List Observation)) (o : Observation)
      → ledger h ≡ lifecycles h.admitted
      → ledger (admit o h) ≡ lifecycles (admit o h).admitted
  unfolding admit
  admitted_last h o e =
      admit-ledger h o
      ∙ ap (λ l. l ++ lifecycle o) e
      ∙ ap (◌++◌ (lifecycles h.admitted)) (sym (append-nil (lifecycle o)))
      ∙ sym (lifecycles-append h.admitted (o ∷ []))

  -- As long as the storage has not failed for good: the Starts and Ends among the observations that the
  -- writer was given and has written, the one that waits for another attempt, and those still in the
  -- mailbox are, in this order, exactly those that the producer has put into the mailbox; none is lost,
  -- doubled, changed but for its wall-clock time, or overtaken, whatever the writer answers.
  pub Reach-ledger :
      {h : HistoryTask (S × List Observation)}
      → Reach h
      → h.policy.terminal ≡ false
      → ledger h ≡ lifecycles h.admitted
  Reach-ledger here t = refl
  Reach-ledger (admitting {h} o r) t = admitted_last h o (Reach-ledger r (admit_terminal h o t))
  Reach-ledger (working {h} r) t =
      let (before, kept) = round-ledger h t in
      kept ∙ Reach-ledger r before ∙ ap lifecycles (sym (round-admitted h))
