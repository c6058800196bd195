-- ===== src/History/Eviction/Erased.antt =====
-- components/smoker_platform/src/history_support.cpp: the eviction of a session, erase by erase.
use smoker_firmware.Common.{
  has_value, if_holds, ℕ, ◌+◌, ◌<◌, ◌≡◌, refl, sym, ap, subst, ◌∙◌, List, [], ◌∷◌, ◌++◌, Bool, true,
  false, not, ◌||◌, inl, inr, Option, none, some, arith, if◌then◌else◌, ◌==◌, any_of,
}
use smoker_firmware.History.Eviction.{
  PageInfo, is_of_session, is_marked, find_page, session_is_pending_eviction, given_up, give_up_at,
  kept_page, erase_others, erase_marker, after_others, complete_at, complete_pending_eviction,
}
use smoker_firmware.History.Eviction.Hidden.{
  marker_at, only_marker, IsHidden, marked_is_pending, found_marker, nothing_left,
}
use smoker_firmware.History.Eviction.Log.{
  recording, is_in, erased, is_in-append, IsBehind, erased_none, erased_last, erased-marker_at,
  split_last, front_without,
}

module _ {F : Type 0} (erase : ℕ → F → Bool × F) where
  -- What the loop from `index` on leaves of a log and of the pages.
  record IsLoop (m id index : ℕ) (pages : List PageInfo) (log : List ℕ)
      (r : Bool × List PageInfo × (F × List ℕ)) : Type 0 where
    table : r.1 ≡ erased r.2.1 index pages
    below : (i : ℕ) → i < index → is_in i r.2.1 ≡ is_in i log
    no_marker : is_in m r.2.1 ≡ is_in m log
    only : r.0 ≡ true → only_marker m id index r.1 ≡ true

  kept_page-IsLoop :
      (m id index : ℕ) (page p : PageInfo) (pages : List PageInfo) (log after : List ℕ)
      (r : Bool × List PageInfo × (F × List ℕ))
      → IsLoop m id (index + 1) pages after r
      → (if is_in index after then given_up page else page) ≡ p
      → ((i : ℕ) → i < index → is_in i after ≡ is_in i log)
      → is_in m after ≡ is_in m log
      → (index == m || not (is_of_session id p)) ≡ true
      → IsLoop m id index (page ∷ pages) log (kept_page (recording erase) p r)
  kept_page-IsLoop m id index page p pages log after r o here before n done = record {
    table =
        ap (λ t. p ∷ t) o.table
        ∙ ap (λ q. q ∷ erased r.2.1 (index + 1) pages)
            (sym here
              ∙ ap (λ b. if b then given_up page else page) (sym (o.below index (omega arith))));
    below = λ i h. o.below i (omega (arith, h)) ∙ before i h;
    no_marker = o.no_marker ∙ n;
    only = λ t. ground (arith, done, o.only t);
  }

  erase_others-IsLoop :
      (m id index : ℕ) (pages : List PageInfo) (flash : F) (log : List ℕ)
      → IsBehind index log
      → IsLoop m id index pages log (erase_others (recording erase) m id index pages (flash, log))
  unfolding erase_others
  erase_others-IsLoop m id index [] flash log b = record {
    table = refl;
    below = λ i h. refl;
    no_marker = refl;
    only = λ h. refl;
  }
  erase_others-IsLoop m id index (page ∷ pages) flash log b =
      let answer = erase index flash in
      if_holds (IsLoop m id index (page ∷ pages) log) (index == m || not (is_of_session id page))
        (λ e.
          kept_page-IsLoop m id index page page pages log log
            (erase_others (recording erase) m id (index + 1) pages (flash, log))
            (erase_others-IsLoop m id (index + 1) pages flash log (λ i h. b i (omega (arith, h))))
            (ap (λ c. if c then given_up page else page) (b index (omega arith))) (λ i h. refl) refl
            e)
        (λ e.
          if_holds (IsLoop m id index (page ∷ pages) log) (not answer.0)
            (λ k.
              let same : (if answer.0 then log ++ (index ∷ []) else log) ≡ log =
                ground (arith, k) in
              record {
                table =
                    sym (erased_none log index (page ∷ pages) b)
                    ∙ ap (λ l. erased l index (page ∷ pages)) (sym same);
                below = λ i h. ap (is_in i) same;
                no_marker = ap (is_in m) same;
                only = λ t. absurd (cc t);
              })
            (λ k.
              let after = if answer.0 then log ++ (index ∷ []) else log in
              let more : after ≡ log ++ (index ∷ []) = ground (arith, k) in
              let at : (i : ℕ) → is_in i after ≡ (is_in i log || (i == index || false)) =
                λ i. ap (is_in i) more ∙ is_in-append i log (index ∷ []) in
              let now_in : is_in index after ≡ true = at index ∙ ground arith in
              kept_page-IsLoop m id index page (given_up page) pages log after
                (erase_others (recording erase) m id (index + 1) pages (answer.1, after))
                (erase_others-IsLoop m id (index + 1) pages answer.1 after
                  (λ i h. at i ∙ ground (arith, h, b i (omega (arith, h)))))
                (ap (λ c. if c then given_up page else page) now_in)
                (λ i h. at i ∙ ground (arith, h)) (at m ∙ ground (arith, e)) (ground arith)))

-- What the eviction of a session leaves of its pages, where the log says which erases have been
-- done: the table gives up exactly the erased pages; after each of the erases, as long as one page of
-- the session is left the session is marked as given up; and a completion that succeeds and does not
-- keep the marker leaves no page of it.
pub record IsEvicted {F : Type 0} (id : ℕ) (keep_marker_for_reuse : Bool) (pages : List PageInfo)
    (r : Option ℕ × List PageInfo × (F × List ℕ)) : Type 0 where
  pub table : r.1 ≡ erased r.2.1 0 pages
  pub hidden : (front back : List ℕ) → front ++ back ≡ r.2.1 → IsHidden id (erased front 0 pages)
  pub gone :
      keep_marker_for_reuse ≡ false → has_value r.0 ≡ true → any_of (is_of_session id) r.1 ≡ false

without-IsHidden :
    (m id : ℕ) (pages : List PageInfo) (front back log : List ℕ)
    → marker_at m id 0 pages ≡ true
    → is_in m log ≡ false
    → front ++ back ≡ log
    → IsHidden id (erased front 0 pages)
without-IsHidden m id pages front back log h n e s =
    marked_is_pending m id 0 (erased front 0 pages)
      (erased-marker_at front m id 0 pages (front_without front back log m e n) h)

first-IsHidden :
    (id : ℕ) (pages : List PageInfo) (front back : List ℕ)
    → session_is_pending_eviction id pages ≡ true
    → front ++ back ≡ []
    → IsHidden id (erased front 0 pages)
first-IsHidden id pages [] back p e =
    subst (IsHidden id) (sym (erased_none [] 0 pages (λ i h. refl))) (λ s. p)
first-IsHidden id pages (a ∷ front) back p e = absurd (cc e)

module _ {F : Type 0} (erase : ℕ → F → Bool × F) where
  -- The erase of the marker's page.
  erase_marker-IsEvicted :
      (m id : ℕ) (pages left : List PageInfo) (log : List ℕ) (answer : Bool × F)
      → marker_at m id 0 pages ≡ true
      → is_in m log ≡ false
      → left ≡ erased log 0 pages
      → only_marker m id 0 left ≡ true
      → IsEvicted id false pages (
          erase_marker
            (recording erase)
            m
            left
            (answer.0, (answer.1, if answer.0 then log ++ (m ∷ []) else log)))
  erase_marker-IsEvicted m id pages left log (false, flash) h n t o = record {
    table = t;
    hidden = λ front back e. without-IsHidden m id pages front back log h n e;
    gone = λ k v. absurd (cc v);
  }
  erase_marker-IsEvicted m id pages left log (true, flash) h n t o = record {
    table = ap (give_up_at m 0) t ∙ sym (erased_last log m 0 pages);
    hidden = λ front back e. elim (split_last front back log m e) [
      | inl all ↦ λ s. absurd (
          cc (
            s,
            ap (any_of (is_of_session id)) (
                  ap (λ l. erased l 0 pages) all
                  ∙ erased_last log m 0 pages
                  ∙ ap (give_up_at m 0) (sym t))
                ∙ nothing_left m id 0 left o,
          ))
      | inr (more, part) ↦ without-IsHidden m id pages front more log h n part
    ];
    gone = λ k v. nothing_left m id 0 left o;
  }

  after_others-IsEvicted :
      (m id : ℕ) (keep_marker_for_reuse : Bool) (pages : List PageInfo)
      (r : Bool × List PageInfo × (F × List ℕ))
      → marker_at m id 0 pages ≡ true
      → IsLoop erase m id 0 pages [] r
      → IsEvicted id keep_marker_for_reuse pages
          (after_others (recording erase) m keep_marker_for_reuse r)
  after_others-IsEvicted m id k pages (false, left, (flash, log)) h o = record {
    table = o.table;
    hidden = λ front back e. without-IsHidden m id pages front back log h o.no_marker e;
    gone = λ c v. absurd (cc v);
  }
  after_others-IsEvicted m id true pages (true, left, (flash, log)) h o = record {
    table = o.table;
    hidden = λ front back e. without-IsHidden m id pages front back log h o.no_marker e;
    gone = λ c v. absurd (cc c);
  }
  after_others-IsEvicted m id false pages (true, left, (flash, log)) h o =
      erase_marker-IsEvicted m id pages left log (erase m flash) h o.no_marker o.table (o.only refl)

  complete_at-IsEvicted :
      (id : ℕ) (keep_marker_for_reuse : Bool) (pages : List PageInfo) (flash : F) (found : Option ℕ)
      → session_is_pending_eviction id pages ≡ true
      → ((m : ℕ) → found ≡ some m → marker_at m id 0 pages ≡ true)
      → IsEvicted id keep_marker_for_reuse pages
          (complete_at (recording erase) id keep_marker_for_reuse pages (flash, []) found)
  unfolding complete_at
  complete_at-IsEvicted id k pages flash none p f = record {
    table = sym (erased_none [] 0 pages (λ i h. refl));
    hidden = λ front back e. first-IsHidden id pages front back p e;
    gone = λ c v. absurd (cc v);
  }
  complete_at-IsEvicted id k pages flash (some m) p f =
      after_others-IsEvicted m id k pages (erase_others (recording erase) m id 0 pages (flash, []))
        (f m refl) (erase_others-IsLoop erase m id 0 pages flash [] (λ i h. refl))

  -- The eviction of a marked session, on a flash that logs which erases it has done, whatever erases
  -- fail: the table of pages gives up exactly the pages that have been erased; after each of these
  -- erases, where a reset may come, the session is still marked as given up as long as one of its
  -- pages is left, so that it is never seen in part; and where the completion that does not keep the
  -- marker succeeds, no page of the session is left.
  pub complete_pending_eviction-IsEvicted :
      (id : ℕ) (keep_marker_for_reuse : Bool) (pages : List PageInfo) (flash : F)
      → session_is_pending_eviction id pages ≡ true
      → IsEvicted id keep_marker_for_reuse pages
          (complete_pending_eviction (recording erase) id keep_marker_for_reuse pages (flash, []))
  unfolding complete_pending_eviction
  complete_pending_eviction-IsEvicted id k pages flash p =
      complete_at-IsEvicted id k pages flash (find_page (is_marked id) 0 pages) p
        (λ m e. (found_marker m id 0 pages e).1)
