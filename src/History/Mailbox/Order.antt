-- ===== src/History/Mailbox/Order.antt =====
-- components/smoker_platform/src/history_support.cpp: the mailbox hands on what it admits, in order.
use smoker_firmware.Common.{
  length, set, length-set, ◌≢◌, if_holds, ℕ, suc, ◌+◌, ◌-◌, ◌%◌, ◌^◌, ◌≤◌, ◌<◌, ◌≡◌, refl, sym, ap,
  ◌∙◌, List, [], ◌∷◌, ◌++◌, map, Bool, true, false, not, ◌&&◌, Option, none, some, arith, ◌==◌, leb,
}
use smoker_firmware.Common.Int.{ℤ}
use smoker_firmware.App.Snapshot.{SnapshotView}
use smoker_firmware.Mailbox.{add_word, sub_word}
use smoker_firmware.History.{ObservationKind, Observation}
use smoker_firmware.History.Mailbox.{
  ObservationMailbox, history_mailbox_capacity, observation_of, pending_observations,
  observation_limit, push_observation, has_capacity, try_pop_observation, is_session_running,
  is_starting, is_ending, is_terminal_first_seen, is_periodic_due, settled, remember, changed,
  after_start, after_end, after_first, after_sample, with_change, with_sample, observe_terminal,
  observe_running, observe,
}
use mathlib.Core.List.{append_assoc}
use smoker_firmware.Common.Window.{slot_of, window, window-set_last, successor}
use smoker_firmware.History.Mailbox.Sessions.{InSessions}
use smoker_firmware.History.Mailbox.Tracked.{Reach, created, observing, popping, Reach-InSessions}

-- The slots from the read sequence up to the write sequence.
abbrev pub waiting_observations : ObservationMailbox → List (Option Observation)
waiting_observations m =
    window m.slots (m.read_sequence % history_mailbox_capacity) (pending_observations m)

record IsRingOf (slots : List (Option Observation)) (write read : ℕ) (admitted : List Observation)
    (delivered : List (Option Observation)) : Type 0 where
  size : length slots ≡ 16
  write_word : write < 2 ^ 32
  read_word : read < 2 ^ 32
  room : sub_word write read ≤ 16
  kept : delivered ++ window slots (read % 16) (sub_word write read) ≡ map some admitted

abbrev IsRing : ObservationMailbox → Type 0
IsRing m = IsRingOf m.slots m.write_sequence m.read_sequence m.admitted m.delivered

map-snoc :
    (os : List Observation) (o : Observation)
    → map some (os ++ (o ∷ [])) ≡ map some os ++ (some o ∷ [])
map-snoc [] o = refl
map-snoc (x ∷ os) o = ap (◌∷◌ (some x)) (map-snoc os o)

push_slot :
    (slots : List (Option Observation)) (write read : ℕ) (admitted : List Observation)
    (delivered : List (Option Observation)) (o : Observation)
    → sub_word write read < 16
    → IsRingOf slots write read admitted delivered
    → IsRingOf
        (set slots (write % 16) (some o))
        (add_word write 1)
        read
        (admitted ++ (o ∷ []))
        delivered
push_slot slots write read admitted delivered o h v =
    let n = sub_word write read in
    record {
      size = length-set slots (write % 16) (some o) ∙ v.size;
      write_word = omega arith;
      read_word = v.read_word;
      room = omega (arith, h, v.write_word, v.read_word);
      kept =
          ap (λ k. delivered ++ window (set slots (write % 16) (some o)) (read % 16) k) {y = suc n}
            (omega (arith, h, v.write_word, v.read_word))
          ∙ ap (λ k. delivered ++ window (set slots k (some o)) (read % 16) (suc n))
              {y = (read % 16 + n) % 16} (omega (arith, h, v.write_word, v.read_word))
          ∙ ap (◌++◌ delivered)
              (window-set_last slots (read % 16) n (some o) v.size (omega arith) h)
          ∙ sym (append_assoc delivered (window slots (read % 16) n) (some o ∷ []))
          ∙ ap (λ l. l ++ (some o ∷ [])) v.kept
          ∙ sym (map-snoc admitted o);
    }

limit_le : (kind : ObservationKind) → observation_limit kind ≤ 16
limit_le kind = ground arith

push_observation-IsRing :
    (kind : ObservationKind) (s : SnapshotView) (now : Option ℤ) (m : ObservationMailbox)
    → IsRing m
    → IsRing (push_observation kind s now m).1
unfolding push_observation
push_observation-IsRing kind s now m v =
    if_holds (λ (p : Bool × ObservationMailbox). IsRing p.1)
      (leb (observation_limit kind) (pending_observations m)) (λ b. v)
      (λ b.
        push_slot m.slots m.write_sequence m.read_sequence m.admitted m.delivered
          (observation_of kind s now) (ground (arith, b, limit_le kind)) v)

pop_slot :
    (slots : List (Option Observation)) (write read : ℕ) (admitted : List Observation)
    (delivered : List (Option Observation)) (n : ℕ)
    → sub_word write read ≡ suc n
    → IsRingOf slots write read admitted delivered
    → IsRingOf slots write
        (add_word read 1)
        admitted
        (delivered ++ (slot_of slots (read % 16) ∷ []))
pop_slot slots write read admitted delivered n e v =
    let d = slot_of slots (read % 16) in
    record {
      size = v.size;
      write_word = v.write_word;
      read_word = omega arith;
      room = omega (arith, e, v.room, v.write_word, v.read_word);
      kept =
          ap (λ k. (delivered ++ (d ∷ [])) ++ window slots (add_word read 1 % 16) k) {y = n}
            (omega (arith, e, v.write_word, v.read_word))
          ∙ ap (λ k. (delivered ++ (d ∷ [])) ++ window slots k n) {y = successor (read % 16)}
              (omega arith)
          ∙ append_assoc delivered (d ∷ []) (window slots (successor (read % 16)) n)
          ∙ ap (λ k. delivered ++ window slots (read % 16) k) (sym e)
          ∙ v.kept;
    }

positive : (n : ℕ) → n ≢ 0 → (k : ℕ) × (n ≡ suc k)
positive n h = (n - 1, omega (arith, h))

try_pop_observation-IsRing : (m : ObservationMailbox) → IsRing m → IsRing (try_pop_observation m).1
unfolding try_pop_observation
try_pop_observation-IsRing m v =
    if_holds (λ (p : Option (Option Observation) × ObservationMailbox). IsRing p.1)
      (m.read_sequence == m.write_sequence) (λ b. v)
      (λ b.
        let (n, e) =
          positive (pending_observations m) (ground (arith, b, v.write_word, v.read_word)) in
        pop_slot m.slots m.write_sequence m.read_sequence m.admitted m.delivered n e v)

after_start-IsRing :
    (s : SnapshotView) (r : Bool × ObservationMailbox) → IsRing r.1 → IsRing (after_start s r)
unfolding after_start settled remember
after_start-IsRing s (false, m) v = v
after_start-IsRing s (true, m) v = v

after_end-IsRing :
    (s : SnapshotView) (r : Bool × ObservationMailbox) → IsRing r.1 → IsRing (after_end s r)
unfolding after_end settled remember
after_end-IsRing s (false, m) v = v
after_end-IsRing s (true, m) v = v

after_first-IsRing :
    (s : SnapshotView) (now : Option ℤ) (r : Bool × ObservationMailbox)
    → IsRing r.1
    → IsRing (after_first s now r)
unfolding after_first
after_first-IsRing s now (false, m) v = v
after_first-IsRing s now (true, m) v =
    after_end-IsRing s _ (push_observation-IsRing ObservationKind.end s now m v)

after_sample-IsRing :
    (s : SnapshotView) (r : Bool × ObservationMailbox) → IsRing r.1 → IsRing (after_sample s r)
after_sample-IsRing s (false, m) v = v
after_sample-IsRing s (true, m) v = v

observe_running-IsRing :
    (s : SnapshotView) (now : Option ℤ) (m : ObservationMailbox)
    → IsRing m
    → IsRing (observe_running s now m)
unfolding observe_running with_change with_sample settled remember
observe_running-IsRing s now m v =
    let a : IsRing (with_change s now m) =
      if_holds IsRing (m.initialized && changed s m)
        (λ b. push_observation-IsRing ObservationKind.change s now m v) (λ b. v) in
    if_holds IsRing (is_periodic_due s m)
      (λ b.
        after_sample-IsRing s _
          (push_observation-IsRing ObservationKind.sample s now (with_change s now m) a))
      (λ b. a)

observe-IsRing :
    (s : SnapshotView) (now : Option ℤ) (m : ObservationMailbox)
    → IsRing m
    → IsRing (observe s now m)
unfolding observe observe_terminal settled remember
observe-IsRing s now m v =
    if_holds IsRing (is_starting s m)
      (λ b. after_start-IsRing s _ (push_observation-IsRing ObservationKind.start s now m v))
      (λ b.
        if_holds IsRing (is_ending s m)
          (λ c. after_end-IsRing s _ (push_observation-IsRing ObservationKind.end s now m v))
          (λ c.
            if_holds IsRing (is_terminal_first_seen s m)
              (λ d.
                if_holds IsRing (not (has_capacity 2 m)) (λ e. v)
                  (λ e.
                    after_first-IsRing s now _
                      (push_observation-IsRing ObservationKind.start s now m v)))
              (λ d.
                if_holds IsRing (is_session_running s) (λ e. observe_running-IsRing s now m v)
                  (λ e. v))))

ring : {m : ObservationMailbox} → Reach m → IsRing m
ring created = record {
  size = refl;
  write_word = omega arith;
  read_word = omega arith;
  room = omega arith;
  kept = refl;
}
ring (observing {m} s now view r) = observe-IsRing s now m (ring r)
ring (popping {m} r) = try_pop_observation-IsRing m (ring r)

-- Whatever snapshots the control task observes, as long as a running session has an id, and whenever
-- the consumer takes observations out: what has been taken out and what waits are, in this order,
-- all that `push` has admitted; and in this sequence every Sample, Change and End belongs to the
-- session of the last Start before it, with no End in between.
pub Reach-delivers :
    {m : ObservationMailbox}
    → Reach m
    → (m.delivered ++ waiting_observations m ≡ map some m.admitted) × InSessions none m.admitted
Reach-delivers r = ((ring r).kept, Reach-InSessions r)
