-- ===== src/Common/Window.antt =====
-- A circular array of 16 places as a sequence: the command ring and the command mailbox.
use Prim.Native.Nat.{ℕ, zero, suc, ◌+◌, ◌-◌, ◌%◌, ◌≤◌, ◌<◌}
use mathlib.Core.Path.{◌≡◌, refl, ap, ap₂, ◌∙◌}
use mathlib.Core.Logic.{◌≢◌}
use mathlib.Core.List.{List, [], ◌∷◌, ◌++◌}
use mathlib.Core.Option.{Option, none, some}
use native.Mathlib.Omega.{arith}
use smoker_firmware.Common.Lists.{length, set, get_elem?, get_elem?-set_self, get_elem?-set_ne}

-- Both arrays have 16 places.
abbrev pub ring_size : ℕ
ring_size = 16

abbrev pub successor : ℕ → ℕ
successor i = (i + 1) % ring_size

module _ {A : Type 0} where
  abbrev pub slot_of : List (Option A) → ℕ → Option A
  slot_of cs i = elim (get_elem? cs i) [ none ↦ none | some c ↦ c ]

  -- The `n` slots from index `h` on, going round.
  abbrev pub window : List (Option A) → ℕ → ℕ → List (Option A)
  window cs h zero = []
  window cs h (suc n) = slot_of cs h ∷ window cs (successor h) n

  pub length-window : (cs : List (Option A)) (h n : ℕ) → length (window cs h n) ≡ n
  length-window cs h zero = refl
  length-window cs h (suc n) = ap suc (length-window cs (successor h) n)

  -- A window is its first slots and the last one.
  pub window-last :
      (cs : List (Option A)) (h n : ℕ)
      → h < ring_size
      → window cs h (suc n) ≡ window cs h n ++ (slot_of cs ((h + n) % ring_size) ∷ [])
  window-last cs h zero hh = ap (λ k. slot_of cs k ∷ []) (omega arith)
  window-last cs h (suc n) hh = ap (◌∷◌ (slot_of cs h)) (
      window-last cs (successor h) n (omega arith)
      ∙ ap (λ k. window cs (successor h) n ++ (slot_of cs k ∷ [])) (omega arith))

  pub slot_of-set_self :
      (cs : List (Option A)) (i : ℕ) (v : Option A) → i < length cs → slot_of (set cs i v) i ≡ v
  slot_of-set_self cs i v h = rw (get_elem?-set_self cs i v h, slot_of)

  pub slot_of-set_ne :
      (cs : List (Option A)) (i j : ℕ) (v : Option A)
      → i ≢ j
      → slot_of (set cs i v) j ≡ slot_of cs j
  slot_of-set_ne cs i j v h = rw (get_elem?-set_ne cs i j v h, slot_of)

  -- A write at a distance from the first slot that lies past the window leaves the window alone.
  pub window-set_outside :
      (cs : List (Option A)) (h n k : ℕ) (v : Option A)
      → h < ring_size
      → n ≤ k
      → k < ring_size
      → window (set cs ((h + k) % ring_size) v) h n ≡ window cs h n
  window-set_outside cs h zero k v hh nk hk = refl
  window-set_outside cs h (suc n) k v hh nk hk =
      ap₂ ◌∷◌ (slot_of-set_ne cs ((h + k) % ring_size) h v (omega arith)) (
        ap (λ i. window (set cs i v) (successor h) n) (omega arith)
        ∙ window-set_outside cs (successor h) n (k - 1) v (omega arith) (omega arith) (omega arith))

  -- A write at the last slot of a window.
  pub window-set_last :
      (cs : List (Option A)) (h n : ℕ) (v : Option A)
      → length cs ≡ ring_size
      → h < ring_size
      → n < ring_size
      → window (set cs ((h + n) % ring_size) v) h (suc n) ≡ window cs h n ++ (v ∷ [])
  window-set_last cs h n v full hh hn =
      window-last _ h n hh
      ∙ ap₂ (λ a b. a ++ (b ∷ [])) (window-set_outside cs h n n v hh (omega arith) hn)
          (slot_of-set_self cs ((h + n) % ring_size) v (omega arith))
