-- ===== src/History/Mailbox/Sessions.antt =====
-- components/smoker_platform/src/history_support.cpp: the observations come in sessions.
use smoker_firmware.Common.{
  if_holds, ℕ, ◌^◌, ◌<◌, ◌≡◌, refl, sym, ap, ◌∙◌, List, [], ◌∷◌, ◌++◌, Bool, true, false, Option,
  none, some, arith, ◌⊎◌, leb, has_value,
}
use smoker_firmware.Common.Int.{ℤ}
use smoker_firmware.Core.Domain.{SessionStatus}
use smoker_firmware.App.Snapshot.{SnapshotView}
use smoker_firmware.History.{ObservationKind, Observation}
use smoker_firmware.History.Numbers.{value_or}
use smoker_firmware.History.Compare.{status_eq}
use smoker_firmware.History.Mailbox.{
  ObservationMailbox, observation_of, pending_observations, observation_limit, push_observation,
  is_session_running, settled, remember, after_start, after_end,
}

-- The session that is open after an observation, if one is.
abbrev pub advance_by : ObservationKind → ℕ → Option ℕ → Option ℕ
advance_by ObservationKind.start id open_ = some id
advance_by ObservationKind.sample id open_ = open_
advance_by ObservationKind.change id open_ = open_
advance_by ObservationKind.end id open_ = none

abbrev pub advance_session : Option ℕ → Observation → Option ℕ
advance_session open_ o = advance_by o.kind o.application_session_id open_

abbrev pub open_after : Option ℕ → List Observation → Option ℕ
open_after open_ [] = open_
open_after open_ (o ∷ os) = open_after (advance_session open_ o) os

-- A Start may come at any time; any other observation belongs to the open session.
abbrev pub Fits : Option ℕ → Observation → Type 0
Fits open_ o = (o.kind ≡ ObservationKind.start) ⊎ (open_ ≡ some o.application_session_id)

abbrev pub InSessions : Option ℕ → List Observation → Type 0
InSessions open_ [] = Unit {0}
InSessions open_ (o ∷ os) = Fits open_ o × InSessions (advance_session open_ o) os

snoc-InSessions :
    (open_ : Option ℕ) (os : List Observation) (o : Observation)
    → InSessions open_ os
    → Fits (open_after open_ os) o
    → InSessions open_ (os ++ (o ∷ []))
snoc-InSessions open_ [] o v f = (f, tt)
snoc-InSessions open_ (x ∷ os) o (g, v) f = (g, snoc-InSessions (advance_session open_ x) os o v f)

open_after-snoc :
    (open_ : Option ℕ) (os : List Observation) (o : Observation)
    → open_after open_ (os ++ (o ∷ [])) ≡ advance_session (open_after open_ os) o
open_after-snoc open_ [] o = refl
open_after-snoc open_ (x ∷ os) o = open_after-snoc (advance_session open_ x) os o

abbrev pub open_session : ObservationMailbox → Option ℕ
open_session m = open_after none m.admitted

-- While the session last seen was running, it is the open one.
pub record IsTracked (m : ObservationMailbox) : Type 0 where
  pub ordered : InSessions none m.admitted
  pub open_ :
      m.initialized ≡ true
      → status_eq m.previous_status SessionStatus.running ≡ true
      → (id : ℕ) × ((m.previous_session_id ≡ some id) × (open_session m ≡ some id))
  pub read_word : m.read_sequence < 2 ^ 32

-- What a push leaves of a mailbox, for an observation that fits.
pub record IsPushed (m : ObservationMailbox) (o : Observation) (r : Bool × ObservationMailbox)
    : Type 0 where
  pub ordered : InSessions none r.1.admitted
  pub accepted : r.0 ≡ true → open_session r.1 ≡ advance_session (open_session m) o
  pub refused : r.0 ≡ false → open_session r.1 ≡ open_session m
  pub initialized : r.1.initialized ≡ m.initialized
  pub status : r.1.previous_status ≡ m.previous_status
  pub session_id : r.1.previous_session_id ≡ m.previous_session_id
  pub read_word : r.1.read_sequence < 2 ^ 32

pub push_observation-IsPushed :
    (kind : ObservationKind) (s : SnapshotView) (now : Option ℤ) (m : ObservationMailbox)
    → InSessions none m.admitted
    → m.read_sequence < 2 ^ 32
    → Fits (open_session m) (observation_of kind s now)
    → IsPushed m (observation_of kind s now) (push_observation kind s now m)
unfolding push_observation
push_observation-IsPushed kind s now m v w f =
    if_holds (IsPushed m (observation_of kind s now))
      (leb (observation_limit kind) (pending_observations m))
      (λ e. record {
        ordered = v;
        accepted = λ h. absurd (cc h);
        refused = λ h. refl;
        initialized = refl;
        status = refl;
        session_id = refl;
        read_word = w;
      })
      (λ e. record {
        ordered = snoc-InSessions none m.admitted (observation_of kind s now) v f;
        accepted = λ h. open_after-snoc none m.admitted (observation_of kind s now);
        refused = λ h. absurd (cc h);
        initialized = refl;
        status = refl;
        session_id = refl;
        read_word = w;
      })

-- What `SmokerApplication` makes: a running session has an id.
abbrev pub IsView : SnapshotView → Type 0
IsView s = status_eq s.session_status SessionStatus.running ≡ true → has_value s.session_id ≡ true

pub known_id : (o : Option ℕ) → has_value o ≡ true → o ≡ some (value_or 0 o)
known_id none h = absurd (cc h)
known_id (some n) h = refl

-- The end of `observe`, where a session that runs is the open one.
pub settled-IsTracked :
    (s : SnapshotView) (m : ObservationMailbox)
    → IsView s
    → InSessions none m.admitted
    → m.read_sequence < 2 ^ 32
    → (is_session_running s ≡ true → open_session m ≡ some (value_or 0 s.session_id))
    → IsTracked (settled s m)
unfolding settled remember
settled-IsTracked s m view v w r = record {
  ordered = v;
  open_ = λ i e.
      let k = view e in
      (value_or 0 s.session_id, (known_id s.session_id k, r (ground (arith, e, k))));
  read_word = w;
}

-- A refused push changes nothing that is tracked.
pub refused-IsTracked :
    (m n : ObservationMailbox) (o : Observation)
    → IsTracked m
    → IsPushed m o (false, n)
    → IsTracked n
refused-IsTracked m n o v p = record {
  ordered = p.ordered;
  open_ = λ i e.
      let (id, w) =
        v.open_ (sym p.initialized ∙ i)
          (ap (λ x. status_eq x SessionStatus.running) (sym p.status) ∙ e) in
      (id, (p.session_id ∙ w.0, p.refused refl ∙ w.1));
  read_word = p.read_word;
}

pub after_start-IsTracked :
    (s : SnapshotView) (now : Option ℤ) (m : ObservationMailbox) (r : Bool × ObservationMailbox)
    → IsView s
    → IsTracked m
    → IsPushed m (observation_of ObservationKind.start s now) r
    → IsTracked (after_start s r)
unfolding after_start observation_of
after_start-IsTracked s now m (false, n) view v p =
    refused-IsTracked m n (observation_of ObservationKind.start s now) v p
after_start-IsTracked s now m (true, n) view v p =
    settled-IsTracked s (record n { last_sample_elapsed = s.session_elapsed }) view p.ordered
      p.read_word (λ e. p.accepted refl)

pub after_end-IsTracked :
    (s : SnapshotView) (now : Option ℤ) (m : ObservationMailbox) (r : Bool × ObservationMailbox)
    → IsView s
    → IsTracked m
    → is_session_running s ≡ false
    → IsPushed m (observation_of ObservationKind.end s now) r
    → IsTracked (after_end s r)
unfolding after_end observation_of
after_end-IsTracked s now m (false, n) view v e p =
    refused-IsTracked m n (observation_of ObservationKind.end s now) v p
after_end-IsTracked s now m (true, n) view v e p =
    settled-IsTracked s n view p.ordered p.read_word (λ h. absurd (cc (h, e)))
