-- ===== src/History/Eviction/Hidden.antt =====
-- components/smoker_platform/src/history_support.cpp: a session that is given up is not seen in part.
use smoker_firmware.Common.{
  ℕ, ◌+◌, ◌≤◌, ◌≡◌, refl, sym, ap, ◌∙◌, List, [], ◌∷◌, Bool, true, false, not, ◌&&◌, ◌||◌,
  Bool-cases, inl, inr, some, arith, if◌then◌else◌, ◌==◌, any_of,
}
use mathlib.Core.Option.{some-injective}
use smoker_firmware.History.Eviction.{
  PageInfo, is_of_session, is_marked, find_page, session_is_pending_eviction, given_up, give_up_at,
}

-- The page at the marker's index is marked.
abbrev pub marker_at : ℕ → ℕ → ℕ → List PageInfo → Bool
marker_at marker_index history_id index [] = false
marker_at marker_index history_id index (page ∷ pages) =
    if index == marker_index
    then is_marked history_id page
    else marker_at marker_index history_id (index + 1) pages

-- No other page is of the session.
abbrev pub only_marker : ℕ → ℕ → ℕ → List PageInfo → Bool
only_marker marker_index history_id index [] = true
only_marker marker_index history_id index (page ∷ pages) =
    (index == marker_index || not (is_of_session history_id page))
    && only_marker marker_index history_id (index + 1) pages

-- As long as a page of the session is left, the session is marked as given up.
abbrev pub IsHidden : ℕ → List PageInfo → Type 0
IsHidden history_id pages =
    any_of (is_of_session history_id) pages ≡ true
    → session_is_pending_eviction history_id pages ≡ true

pub marker_head :
    (m id index : ℕ) (page : PageInfo) (pages : List PageInfo)
    → (index == m) ≡ true
    → marker_at m id index (page ∷ pages) ≡ is_marked id page
marker_head m id index page pages e =
    ap (λ b. if b then is_marked id page else marker_at m id (index + 1) pages) e

pub marker_tail :
    (m id index : ℕ) (page : PageInfo) (pages : List PageInfo)
    → (index == m) ≡ false
    → marker_at m id index (page ∷ pages) ≡ marker_at m id (index + 1) pages
marker_tail m id index page pages e =
    ap (λ b. if b then is_marked id page else marker_at m id (index + 1) pages) e

pub marked_is_pending :
    (m id index : ℕ) (pages : List PageInfo)
    → marker_at m id index pages ≡ true
    → session_is_pending_eviction id pages ≡ true
unfolding session_is_pending_eviction any_of
marked_is_pending m id index [] h = absurd (cc h)
marked_is_pending m id index (page ∷ pages) h = elim (Bool-cases (index == m)) [
  | inl e ↦
      let marked : is_marked id page ≡ true = sym (marker_head m id index page pages e) ∙ h in
      ap (λ b. b || any_of (is_marked id) pages) marked
  | inr e ↦
      let later : marker_at m id (index + 1) pages ≡ true =
        sym (marker_tail m id index page pages e) ∙ h in
      ground (arith, marked_is_pending m id (index + 1) pages later)
]

-- Where the search finds a marker there is one, not before the begin of the search.
pub found_marker :
    (m id index : ℕ) (pages : List PageInfo)
    → find_page (is_marked id) index pages ≡ some m
    → (index ≤ m) × (marker_at m id index pages ≡ true)
found_marker m id index [] h = absurd (cc h)
found_marker m id index (page ∷ pages) h = elim (Bool-cases (is_marked id page)) [
  | inl e ↦
      let same : index ≡ m = some-injective index m (
        sym (ap (λ b. if b then some index else find_page (is_marked id) (index + 1) pages) e)
        ∙ h) in
      let here : (index == m) ≡ true = ground (arith, same) in
      (omega (arith, same), marker_head m id index page pages here ∙ e)
  | inr e ↦
      let (below, later) = found_marker m id (index + 1) pages (
        sym (ap (λ b. if b then some index else find_page (is_marked id) (index + 1) pages) e)
        ∙ h) in
      let there : (index == m) ≡ false = ground (arith, below) in
      (omega (arith, below), marker_tail m id index page pages there ∙ later)
]

pub nothing_left :
    (m id index : ℕ) (pages : List PageInfo)
    → only_marker m id index pages ≡ true
    → any_of (is_of_session id) (give_up_at m index pages) ≡ false
unfolding any_of
nothing_left m id index [] h = refl
nothing_left m id index (page ∷ pages) h = elim (Bool-cases (index == m)) [
  | inl e ↦
      ap
        (λ b.
          is_of_session id (if b then given_up page else page)
          || any_of (is_of_session id) (give_up_at m (index + 1) pages))
        e
      ∙ nothing_left m id (index + 1) pages (ground (arith, h))
  | inr e ↦
      ap
        (λ b.
          is_of_session id (if b then given_up page else page)
          || any_of (is_of_session id) (give_up_at m (index + 1) pages))
        e
      ∙ ground (arith, h, e, nothing_left m id (index + 1) pages (ground (arith, h)))
]
