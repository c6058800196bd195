-- ===== src/History/Mailbox/Tracked.antt =====
-- components/smoker_platform/src/history_support.cpp: `observe` keeps the sessions in order.
use smoker_firmware.Common.{
  if_holds, ℕ, ◌^◌, ◌<◌, ◌≡◌, refl, sym, ap, ◌∙◌, Bool, true, false, not, ◌&&◌, Bool-cases, Option,
  none, some, arith, inl, inr, ◌==◌, leb, opt_eq, opt_eq_iff,
}
use smoker_firmware.Common.Int.{ℤ}
use smoker_firmware.Core.Domain.{SessionStatus}
use smoker_firmware.App.State.{App}
use smoker_firmware.App.Snapshot.{SnapshotView, snapshot_view, snapshot_view-running}
use smoker_firmware.Mailbox.{add_word, sub_word}
use smoker_firmware.History.{ObservationKind, Observation}
use smoker_firmware.History.Numbers.{value_or}
use smoker_firmware.History.Compare.{status_eq}
use smoker_firmware.History.Mailbox.{
  ObservationMailbox, new_observation_mailbox, observation_of, pending_observations,
  push_observation, has_capacity, try_pop_observation, is_session_running, is_starting, is_ending,
  is_terminal_first_seen, is_periodic_due, changed, after_end, after_first, after_sample,
  with_change, with_sample, observe_terminal, observe_running, observe,
}
use smoker_firmware.History.Mailbox.Sessions.{
  advance_session, InSessions, open_session, IsTracked, IsPushed, IsView, push_observation-IsPushed,
  settled-IsTracked, after_start-IsTracked, after_end-IsTracked,
}

-- With room for two, the first push succeeds and so does the second.
push_observation-push_observation :
    (s : SnapshotView) (now : Option ℤ) (m : ObservationMailbox)
    → has_capacity 2 m ≡ true
    → m.read_sequence < 2 ^ 32
    → ((push_observation ObservationKind.start s now m).0 ≡ true)
      × ((push_observation ObservationKind.end s now
            (push_observation ObservationKind.start s now m).1).0
          ≡ true)
unfolding push_observation
push_observation-push_observation s now m c w =
    let p : leb 16 (pending_observations m) ≡ false = ground (arith, c) in
    let q : leb 16 (sub_word (add_word m.write_sequence 1) m.read_sequence) ≡ false =
      ground (arith, c, w) in
    (rw p refl, rw (p, q) refl)

accepted_end :
    (s : SnapshotView) (now : Option ℤ) (n : ObservationMailbox) (r : Bool × ObservationMailbox)
    → IsView s
    → is_session_running s ≡ false
    → r.0 ≡ true
    → IsPushed n (observation_of ObservationKind.end s now) r
    → IsTracked (after_end s r)
unfolding after_end
accepted_end s now n (false, x) view e t p = absurd (cc t)
accepted_end s now n (true, x) view e t p =
    settled-IsTracked s x view p.ordered p.read_word (λ h. absurd (cc (h, e)))

after_first-IsTracked :
    (s : SnapshotView) (now : Option ℤ) (m : ObservationMailbox) (r : Bool × ObservationMailbox)
    → IsView s
    → is_session_running s ≡ false
    → r.0 ≡ true
    → (push_observation ObservationKind.end s now r.1).0 ≡ true
    → IsPushed m (observation_of ObservationKind.start s now) r
    → IsTracked (after_first s now r)
unfolding after_first observation_of
after_first-IsTracked s now m (false, n) view e t u p = absurd (cc t)
after_first-IsTracked s now m (true, n) view e t u p =
    accepted_end s now n (push_observation ObservationKind.end s now n) view e u (
      push_observation-IsPushed ObservationKind.end s now n p.ordered p.read_word
        (inr (p.accepted refl)))

observe_terminal-IsTracked :
    (s : SnapshotView) (now : Option ℤ) (m : ObservationMailbox)
    → IsView s
    → is_session_running s ≡ false
    → IsTracked m
    → IsTracked (observe_terminal s now m)
unfolding observe_terminal observation_of
observe_terminal-IsTracked s now m view e v =
    if_holds IsTracked (not (has_capacity 2 m))
      (λ b. record { ordered = v.ordered; open_ = v.open_; read_word = v.read_word })
      (λ b.
        let c : has_capacity 2 m ≡ true = ground (arith, b) in
        let (first, second) = push_observation-push_observation s now m c v.read_word in
        after_first-IsTracked s now m (push_observation ObservationKind.start s now m) view e first
          second
          (push_observation-IsPushed ObservationKind.start s now m v.ordered v.read_word
            (inl refl)))

-- The parts of `IsTracked` while a session runs.
record IsRunning (id : ℕ) (m : ObservationMailbox) : Type 0 where
  ordered : InSessions none m.admitted
  open_ : open_session m ≡ some id
  read_word : m.read_sequence < 2 ^ 32

-- A Sample or a Change of the open session leaves it open, admitted or not.
ordinary-IsRunning :
    (kind : ObservationKind) (s : SnapshotView) (now : Option ℤ) (m : ObservationMailbox)
    → ((open_ : Option ℕ) → advance_session open_ (observation_of kind s now) ≡ open_)
    → IsRunning (value_or 0 s.session_id) m
    → IsRunning (value_or 0 s.session_id) (push_observation kind s now m).1
unfolding observation_of
ordinary-IsRunning kind s now m same v =
    let p = push_observation-IsPushed kind s now m v.ordered v.read_word (inr v.open_) in
    record {
      ordered = p.ordered;
      open_ = elim (Bool-cases (push_observation kind s now m).0) [
        | inl a ↦ p.accepted a ∙ same (open_session m) ∙ v.open_
        | inr r ↦ p.refused r ∙ v.open_
      ];
      read_word = p.read_word;
    }

after_sample-IsRunning :
    (id : ℕ) (s : SnapshotView) (r : Bool × ObservationMailbox)
    → IsRunning id r.1
    → IsRunning id (after_sample s r)
after_sample-IsRunning id s (false, m) v = v
after_sample-IsRunning id s (true, m) v = record {
  ordered = v.ordered;
  open_ = v.open_;
  read_word = v.read_word;
}

observe_running-IsTracked :
    (s : SnapshotView) (now : Option ℤ) (m : ObservationMailbox)
    → IsView s
    → IsTracked m
    → open_session m ≡ some (value_or 0 s.session_id)
    → IsTracked (observe_running s now m)
unfolding observe_running with_change with_sample observation_of
observe_running-IsTracked s now m view v o =
    let id = value_or 0 s.session_id in
    let a : IsRunning id (with_change s now m) =
      if_holds (IsRunning id) (m.initialized && changed s m)
        (λ b.
          ordinary-IsRunning ObservationKind.change s now m (λ x. refl)
            (record { ordered = v.ordered; open_ = o; read_word = v.read_word }))
        (λ b. record { ordered = v.ordered; open_ = o; read_word = v.read_word }) in
    let c : IsRunning id (with_sample (is_periodic_due s m) s now (with_change s now m)) =
      if_holds (IsRunning id) (is_periodic_due s m)
        (λ b.
          after_sample-IsRunning id s
            (push_observation ObservationKind.sample s now (with_change s now m))
            (ordinary-IsRunning ObservationKind.sample s now (with_change s now m) (λ x. refl) a))
        (λ b. a) in
    settled-IsTracked s (with_sample (is_periodic_due s m) s now (with_change s now m)) view
      c.ordered c.read_word (λ h. c.open_)

-- The session last seen running, if it is the one of the snapshot, is the open one.
same_session :
    (s : SnapshotView) (m : ObservationMailbox)
    → IsTracked m
    → m.initialized ≡ true
    → status_eq m.previous_status SessionStatus.running ≡ true
    → opt_eq m.previous_session_id s.session_id ≡ true
    → open_session m ≡ some (value_or 0 s.session_id)
same_session s m v i r e =
    let (id, w) = v.open_ i r in
    w.1
    ∙ ap (λ o. some (value_or 0 o)) (sym w.0 ∙ (opt_eq_iff m.previous_session_id s.session_id).0 e)

pub observe-IsTracked :
    (s : SnapshotView) (now : Option ℤ) (m : ObservationMailbox)
    → IsView s
    → IsTracked m
    → IsTracked (observe s now m)
unfolding observe observation_of
observe-IsTracked s now m view v =
    if_holds IsTracked (is_starting s m)
      (λ b.
        after_start-IsTracked s now m (push_observation ObservationKind.start s now m) view v (
          push_observation-IsPushed ObservationKind.start s now m v.ordered v.read_word (inl refl)))
      (λ starting.
        if_holds IsTracked (is_ending s m)
          (λ b.
            after_end-IsTracked s now m (push_observation ObservationKind.end s now m) view v
              (ground (arith, b))
              (push_observation-IsPushed ObservationKind.end s now m v.ordered v.read_word (
                inr (
                  same_session s m v (ground (arith, b)) (ground (arith, b)) (ground (arith, b))))))
          (λ ending.
            if_holds IsTracked (is_terminal_first_seen s m)
              (λ b. observe_terminal-IsTracked s now m view (ground (arith, b)) v)
              (λ first.
                if_holds IsTracked (is_session_running s)
                  (λ b. observe_running-IsTracked s now m view v (
                    same_session s m v (ground (arith, starting, b)) (ground (arith, starting, b))
                      (ground (arith, starting, b))))
                  (λ b.
                    settled-IsTracked s m view v.ordered v.read_word (λ h. absurd (cc (h, b)))))))

-- The calls of the control task and of the history task, in any order.
pub data Reach : ObservationMailbox → Type 0 where
  created : Reach new_observation_mailbox
  observing :
      {m : ObservationMailbox} (s : SnapshotView) (now : Option ℤ)
      → IsView s
      → Reach m
      → Reach (observe s now m)
  popping : {m : ObservationMailbox} → Reach m → Reach (try_pop_observation m).1

try_pop_observation-IsTracked :
    (m : ObservationMailbox) → IsTracked m → IsTracked (try_pop_observation m).1
unfolding try_pop_observation
try_pop_observation-IsTracked m v =
    if_holds (λ (p : Option (Option Observation) × ObservationMailbox). IsTracked p.1)
      (m.read_sequence == m.write_sequence) (λ b. v)
      (λ b. record { ordered = v.ordered; open_ = v.open_; read_word = omega arith })

tracked : {m : ObservationMailbox} → Reach m → IsTracked m
tracked created = record { ordered = tt; open_ = λ i e. absurd (cc i); read_word = omega arith }
tracked (observing {m} s now view r) = observe-IsTracked s now m view (tracked r)
tracked (popping {m} r) = try_pop_observation-IsTracked m (tracked r)

-- Whatever snapshots the control task observes, as long as a running session has an id, and however
-- slow the consumer is: in the sequence of the observations that the mailbox admits, every Sample,
-- Change and End belongs to the session of the last Start before it, with no End in between.
pub Reach-InSessions : {m : ObservationMailbox} → Reach m → InSessions none m.admitted
Reach-InSessions r = (tracked r).ordered

running_status :
    (x : SessionStatus) → status_eq x SessionStatus.running ≡ true → x ≡ SessionStatus.running
running_status SessionStatus.idle e = absurd (cc e)
running_status SessionStatus.running e = refl
running_status SessionStatus.stopped e = absurd (cc e)
running_status SessionStatus.fault e = absurd (cc e)

-- The application's own snapshots are such.
pub snapshot_view-IsView : (a : App) → IsView (snapshot_view a)
snapshot_view-IsView a e =
    snapshot_view-running a (running_status (snapshot_view a).session_status e)
