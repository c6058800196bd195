-- ===== src/Firmware/Deadline.antt =====
-- components/smoker_platform/src/firmware_update_support.cpp: `MonotonicDeadline`.
use smoker_firmware.Common.{
  ℕ, ◌+◌, ◌-◌, ◌*◌, ◌/◌, ◌%◌, ◌^◌, ◌≤◌, ◌<◌, ◌≡◌, ◌↔◌, Bool, true, ◌||◌, ◌⊎◌, inr, arith,
  if◌then◌else◌, ◌==◌, ltb,
}
use smoker_firmware.Common.Int.{ℤ, pos, negsuc, leb_ℤ, ◌≤ℤ◌, ◌<ℤ◌}

-- `std::max<std::int64_t>(x, 0)`
abbrev pub bounded : ℤ → ℕ
bounded (pos n) = n
bounded (negsuc n) = 0

abbrev pub int64_max : ℕ
int64_max = 2 ^ 63 - 1

pub record MonotonicDeadline : Type 0 where
  pub expires_at_microseconds : ℕ

unfoldable pub new_deadline : ℤ → ℤ → MonotonicDeadline
new_deadline started_at duration = record {
  expires_at_microseconds =
      if ltb (int64_max - bounded duration) (bounded started_at)
      then int64_max
      else bounded started_at + bounded duration;
}

unfoldable pub expired : MonotonicDeadline → ℤ → Bool
expired d now = leb_ℤ (pos d.expires_at_microseconds) now

abbrev pub rounded_up : ℕ → ℕ
rounded_up microseconds = microseconds / 1000 + (if microseconds % 1000 == 0 then 0 else 1)

-- The second argument is the longest wait.
unfoldable pub remaining_milliseconds : MonotonicDeadline → ℤ → ℤ → ℕ
unfolding expired
remaining_milliseconds d now maximum =
    if expired d now || leb_ℤ maximum (pos 0)
    then 0
    else let rounded = rounded_up (d.expires_at_microseconds - bounded now) in
      if ltb (bounded maximum) rounded then bounded maximum else rounded

new_deadline_bounds :
    (started_at duration : ℤ)
    → duration <ℤ pos (2 ^ 63)
    → ((new_deadline started_at duration).expires_at_microseconds < 2 ^ 63)
      × ((new_deadline started_at duration).expires_at_microseconds
          ≤ bounded started_at + bounded duration)
unfolding new_deadline
new_deadline_bounds (pos s) (pos d) h = (ground (arith, h), ground (arith, h))
new_deadline_bounds (pos s) (negsuc d) h = (ground (arith, h), ground (arith, h))
new_deadline_bounds (negsuc s) (pos d) h = (ground (arith, h), ground (arith, h))
new_deadline_bounds (negsuc s) (negsuc d) h = (ground (arith, h), ground (arith, h))

-- A wait until a deadline, at a time that is not negative: it is no longer than the caller allows; it is zero exactly if the deadline has expired or no wait is allowed; and a wait
-- shorter than allowed ends at the expiry or less than a millisecond after it.
pub remaining_milliseconds_bounds :
    (d : MonotonicDeadline) (now maximum : ℤ)
    → pos 0 ≤ℤ now
    → (remaining_milliseconds d now maximum ≤ bounded maximum)
      × (((remaining_milliseconds d now maximum ≡ 0)
            ↔ ((expired d now ≡ true) ⊎ (maximum ≤ℤ pos 0)))
          × (0 < remaining_milliseconds d now maximum
              → remaining_milliseconds d now maximum < bounded maximum
              → (d.expires_at_microseconds
                  ≤ bounded now + 1000 * remaining_milliseconds d now maximum)
                × (bounded now + 1000 * remaining_milliseconds d now maximum
                    < d.expires_at_microseconds + 1000)))
unfolding expired remaining_milliseconds
remaining_milliseconds_bounds d (pos n) (pos m) h0 = (
  ground arith,
  (
    ((λ h. ground (arith, h)), (λ h. ground (arith, h))),
    (λ p l. (ground (arith, p, l), ground (arith, p, l))),
  ),
)
remaining_milliseconds_bounds d (pos n) (negsuc m) h0 = (
  ground arith,
  (
    ((λ h. inr (omega arith)), (λ h. ground (arith, h))),
    (λ p l. (ground (arith, p, l), ground (arith, p, l))),
  ),
)
remaining_milliseconds_bounds d (negsuc n) maximum h0 = absurd (omega (arith, h0))
