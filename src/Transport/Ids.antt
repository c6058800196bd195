-- ===== src/Transport/Ids.antt =====
-- components/smoker_platform/src/runtime_transport_support.cpp: `next_valid`.
use smoker_firmware.Common.{
  ℕ, ◌+◌, ◌<◌, ◌^◌, ◌≡◌, ◌≢◌, List, ◌∷◌, inl, inr, Bool-cases, refl, true, false, some, arith,
}
use smoker_firmware.Mailbox.{add_word}
use smoker_firmware.Transport.{internal_ota_correlation_id, reserved_id, next_valid}

abbrev IsId : ℕ → Type 0
IsId id = (id < 2 ^ 32) × ((id ≢ 0) × (id ≢ internal_ota_correlation_id))

free-IsId : (value : ℕ) → value < 2 ^ 32 → reserved_id value ≡ false → IsId value
free-IsId value h free = (h, ground (arith, free))

-- Three draws that stand apart by less than the range of a word meet only two reserved values.
third_is_free :
    (x b c : ℕ)
    → x < 2 ^ 32
    → b + c + 2 < 2 ^ 32
    → reserved_id x ≡ true
    → reserved_id (add_word (add_word x 1) b) ≡ true
    → reserved_id (add_word (add_word (add_word (add_word x 1) b) 1) c) ≡ false
third_is_free x b c h few one two = ground arith

-- The ids are drawn by the HTTP and by the Blynk producer from one sequence. A call of one of them
-- ends after three draws of its own, if the draws of the other between them are fewer than
-- 2 ^ 32 - 2, with an id that is neither 0 nor the one of the updater, below 2 ^ 32.
pub next_valid-some :
    (a b c : ℕ) (later : List ℕ) (sequence : ℕ)
    → b + c + 2 < 2 ^ 32
    → (id : ℕ) × (after : ℕ) × (next_valid (a ∷ b ∷ c ∷ later) sequence ≡ (some id, after))
      × ((id < 2 ^ 32) × ((id ≢ 0) × (id ≢ internal_ota_correlation_id)))
unfolding next_valid
next_valid-some a b c later sequence few =
    let x = add_word sequence a in
    let y = add_word (add_word x 1) b in
    let z = add_word (add_word y 1) c in
    elim (Bool-cases (reserved_id x)) [
      | inr free ↦ (x, add_word x 1, rw free refl, free-IsId x (omega arith) free)
      | inl one ↦ elim (Bool-cases (reserved_id y)) [
        | inr free ↦ (y, add_word y 1, rw (one, free) refl, free-IsId y (omega arith) free)
        | inl two ↦
            let free = third_is_free x b c (omega arith) few one two in
            (z, add_word z 1, rw (one, two, free) refl, free-IsId z (omega arith) free)
      ]
    ]
