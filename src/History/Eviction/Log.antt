-- ===== src/History/Eviction/Log.antt =====
-- components/smoker_platform/src/history_support.cpp: the page table after the erases of a log.
use smoker_firmware.Common.{
  ℕ, ◌+◌, ◌≤◌, ◌≡◌, ◌⊎◌, refl, sym, ap, ◌∙◌, List, [], ◌∷◌, ◌++◌, Bool, true, false, ◌||◌,
  Bool-cases, inl, inr, arith, if◌then◌else◌, ◌==◌,
}
use smoker_firmware.History.Eviction.{PageInfo, is_marked, given_up, give_up_at}
use smoker_firmware.History.Eviction.Hidden.{marker_at, marker_head, marker_tail}

-- A flash that keeps a log of the pages that have been erased, oldest first.
abbrev pub recording : {F : Type 0} → (ℕ → F → Bool × F) → ℕ → F × List ℕ → Bool × (F × List ℕ)
recording erase index (flash, log) =
    let (done, after) = erase index flash in
    (done, (after, if done then log ++ (index ∷ []) else log))

abbrev pub is_in : ℕ → List ℕ → Bool
is_in i [] = false
is_in i (j ∷ log) = i == j || is_in i log

-- What a table that begins at `index` is when the pages of a log have been erased.
abbrev pub erased : List ℕ → ℕ → List PageInfo → List PageInfo
erased log index [] = []
erased log index (page ∷ pages) =
    (if is_in index log then given_up page else page) ∷ erased log (index + 1) pages

pub is_in-append : (i : ℕ) (xs ys : List ℕ) → is_in i (xs ++ ys) ≡ (is_in i xs || is_in i ys)
is_in-append i [] ys = refl
is_in-append i (x ∷ xs) ys = ground (arith, is_in-append i xs ys)

-- The pages at `index` and behind it are not in the log.
abbrev pub IsBehind : ℕ → List ℕ → Type 0
IsBehind index log = (i : ℕ) → index ≤ i → is_in i log ≡ false

pub erased_none :
    (log : List ℕ) (index : ℕ) (pages : List PageInfo)
    → IsBehind index log
    → erased log index pages ≡ pages
erased_none log index [] b = refl
erased_none log index (page ∷ pages) b =
    let tail = erased_none log (index + 1) pages (λ i h. b i (omega (arith, h))) in
    ap (λ c. (if c then given_up page else page) ∷ erased log (index + 1) pages)
      (b index (omega arith))
    ∙ ap (◌∷◌ page) tail

-- The erase of the marker's page comes last.
pub erased_last :
    (log : List ℕ) (m index : ℕ) (pages : List PageInfo)
    → erased (log ++ (m ∷ [])) index pages ≡ give_up_at m index (erased log index pages)
erased_last log m index [] = refl
erased_last log m index (page ∷ pages) =
    let tail = erased_last log m (index + 1) pages in
    ap (λ c. (if c then given_up page else page) ∷ erased (log ++ (m ∷ [])) (index + 1) pages)
      (is_in-append index log (m ∷ []))
    ∙ ap (λ t. (if is_in index log || (index == m || false) then given_up page else page) ∷ t) tail
    ∙ ap (λ p. p ∷ give_up_at m (index + 1) (erased log (index + 1) pages)) (ground arith)

pub erased-marker_at :
    (log : List ℕ) (m id index : ℕ) (pages : List PageInfo)
    → is_in m log ≡ false
    → marker_at m id index pages ≡ true
    → marker_at m id index (erased log index pages) ≡ true
erased-marker_at log m id index [] n h = h
erased-marker_at log m id index (page ∷ pages) n h = elim (Bool-cases (index == m)) [
  | inl e ↦
      let kept : (if is_in index log then given_up page else page) ≡ page = ground (arith, e, n) in
      marker_head m id index (if is_in index log then given_up page else page)
        (erased log (index + 1) pages) e
      ∙ ap (is_marked id) kept
      ∙ sym (marker_head m id index page pages e)
      ∙ h
  | inr e ↦
      marker_tail m id index (if is_in index log then given_up page else page)
        (erased log (index + 1) pages) e
      ∙ erased-marker_at log m id (index + 1) pages n
          (sym (marker_tail m id index page pages e) ∙ h)
]

-- A part of a log that begins it is a part of what comes before its last entry, or all of it.
pub split_last :
    (front back xs : List ℕ) (m : ℕ)
    → front ++ back ≡ xs ++ (m ∷ [])
    → (front ≡ xs ++ (m ∷ [])) ⊎ ((more : List ℕ) × (front ++ more ≡ xs))
split_last [] back xs m e = inr (xs, refl)
split_last (a ∷ []) back [] m e = inl (cc e)
split_last (a ∷ b ∷ front) back [] m e = absurd (cc e)
split_last (a ∷ front) back (x ∷ xs) m e =
    let head : a ≡ x = cc e in
    let tail : front ++ back ≡ xs ++ (m ∷ []) = cc e in
    elim (split_last front back xs m tail) [
      | inl all ↦ inl (cc (head, all))
      | inr (more, part) ↦ inr (more, cc (head, part))
    ]

pub front_without :
    (front back log : List ℕ) (m : ℕ)
    → front ++ back ≡ log
    → is_in m log ≡ false
    → is_in m front ≡ false
front_without front back log m e n = ground (arith, is_in-append m front back, ap (is_in m) e, n)
