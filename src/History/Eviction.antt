-- ===== src/History/Eviction.antt =====
-- components/smoker_platform/src/history_support.cpp: how the log gives up a session's pages.
pub mod Hidden
pub mod Log
pub mod Erased
use smoker_firmware.Common.{
  if_holds, ℕ, ◌+◌, ◌≤◌, ◌≡◌, refl, sym, ap, ◌∙◌, List, [], ◌∷◌, Bool, true, false, not, ◌&&◌, ◌||◌,
  Bool-cases, ◌⊎◌, inl, inr, Option, none, some, arith, if◌then◌else◌, ◌==◌, any_of,
}

pub record PageInfo : Type 0 where
  pub generation : ℕ
  pub history_id : ℕ
  pub page_index : ℕ
  pub used : ℕ
  pub valid : Bool
  pub eviction_marker : Bool
  pub eviction_marker_writable : Bool

abbrev pub is_of_session : ℕ → PageInfo → Bool
is_of_session history_id page = page.valid && page.history_id == history_id

abbrev pub is_marked : ℕ → PageInfo → Bool
is_marked history_id page = page.valid && (page.history_id == history_id && page.eviction_marker)

-- The index of the first such page, where the list begins at `index`.
abbrev pub find_page : (PageInfo → Bool) → ℕ → List PageInfo → Option ℕ
find_page test index [] = none
find_page test index (page ∷ pages) =
    if test page then some index else find_page test (index + 1) pages

unfoldable pub session_is_pending_eviction : ℕ → List PageInfo → Bool
unfolding any_of
session_is_pending_eviction history_id pages = any_of (is_marked history_id) pages

abbrev pub given_up : PageInfo → PageInfo
given_up page = record page {
  valid = false;
  eviction_marker = false;
  eviction_marker_writable = true;
}

abbrev pub give_up_at : ℕ → ℕ → List PageInfo → List PageInfo
give_up_at marker_index index [] = []
give_up_at marker_index index (page ∷ pages) =
    (if index == marker_index then given_up page else page)
    ∷ give_up_at marker_index (index + 1) pages

-- `erase_sector` of the page with an index, over the state of the flash.
module _ {F : Type 0} (erase : ℕ → F → Bool × F) where
  abbrev pub kept_page : PageInfo → Bool × List PageInfo × F → Bool × List PageInfo × F
  kept_page page (done, pages, flash) = (done, page ∷ pages, flash)

  -- The loop over the pages; it ends at an erase that fails.
  unfoldable pub erase_others : ℕ → ℕ → ℕ → List PageInfo → F → Bool × List PageInfo × F
  erase_others marker_index history_id index [] flash = (true, [], flash)
  erase_others marker_index history_id index (page ∷ pages) flash =
      let skipped = erase_others marker_index history_id (index + 1) pages flash in
      let erased = erase_others marker_index history_id (index + 1) pages (erase index flash).1 in
      if index == marker_index || not (is_of_session history_id page)
      then kept_page page skipped
      else if not (erase index flash).0
      then (false, page ∷ pages, (erase index flash).1)
      else kept_page (given_up page) erased

  abbrev pub erase_marker : ℕ → List PageInfo → Bool × F → Option ℕ × List PageInfo × F
  erase_marker marker_index pages (false, flash) = (none, pages, flash)
  erase_marker marker_index pages (true, flash) =
      (some marker_index, give_up_at marker_index 0 pages, flash)

  abbrev pub after_others : ℕ → Bool → Bool × List PageInfo × F → Option ℕ × List PageInfo × F
  after_others marker_index keep_marker_for_reuse (false, pages, flash) = (none, pages, flash)
  after_others marker_index true (true, pages, flash) = (some marker_index, pages, flash)
  after_others marker_index false (true, pages, flash) =
      erase_marker marker_index pages (erase marker_index flash)

  abbrev pub complete_at : ℕ → Bool → List PageInfo → F → Option ℕ → Option ℕ × List PageInfo × F
  unfolding erase_others
  complete_at history_id keep_marker_for_reuse pages flash none = (none, pages, flash)
  complete_at history_id keep_marker_for_reuse pages flash (some marker_index) =
      after_others marker_index keep_marker_for_reuse
        (erase_others marker_index history_id 0 pages flash)

  -- The counts of errors are left out.
  unfoldable pub complete_pending_eviction :
      ℕ → Bool → List PageInfo → F → Option ℕ × List PageInfo × F
  unfolding complete_at
  complete_pending_eviction history_id keep_marker_for_reuse pages flash =
      complete_at history_id keep_marker_for_reuse pages flash
        (find_page (is_marked history_id) 0 pages)
