-- ===== src/Firmware/Version/Numeral.antt =====
-- components/smoker_platform/src/firmware_update_support.cpp: `parse_component` reads the decimal
-- numerals without leading zeros.
use smoker_firmware.Common.{
  ℕ, suc, ◌+◌, ◌-◌, ◌*◌, ◌^◌, ◌≤◌, ◌<◌, ◌≡◌, refl, sym, ap, ap₂, ◌∙◌, [], ◌∷◌, All, Bool, true,
  false, ◌&&◌, Bool-cases, ◌⊎◌, inl, inr, Option, none, some, arith, if◌then◌else◌, ltb, length,
}
use smoker_firmware.Firmware.Version.{
  Text, is_digit, take_digits, from_chars, is_zero_in_front, if_at_end, parse_component,
}

abbrev pub IsDigit : ℕ → Type 0
IsDigit c = (48 ≤ c) × (c ≤ 57)

-- The number of digits that follow on `value`.
unfoldable pub number_from : ℕ → Text → ℕ
number_from value [] = value
number_from value (c ∷ t) = number_from (10 * value + (c - 48)) t

-- A decimal numeral without leading zeros.
pub record IsNumeral (t : Text) : Type 0 where
  pub digits : All IsDigit t
  pub some_digit : 0 < length t
  pub no_zero : (ltb 1 (length t) && is_zero_in_front t) ≡ false

take_digits-number_from :
    (value : ℕ) (t : Text) → All IsDigit t → take_digits value t ≡ (number_from value t, [])
unfolding take_digits number_from
take_digits-number_from value [] d = refl
take_digits-number_from value (c ∷ t) (d, ds) =
    let e : is_digit c ≡ true = ground (arith, d) in
    rw e (take_digits-number_from (10 * value + (c - 48)) t ds)

number_from-take_digits :
    (value : ℕ) (t : Text)
    → (take_digits value t).1 ≡ []
    → All IsDigit t × ((take_digits value t).0 ≡ number_from value t)
unfolding take_digits number_from
number_from-take_digits value [] h = (tt, refl)
number_from-take_digits value (c ∷ t) h = elim (Bool-cases (is_digit c)) [
  | inl e ↦
      let r : take_digits value (c ∷ t) ≡ take_digits (10 * value + (c - 48)) t = rw e refl in
      let (ds, n) =
        number_from-take_digits (10 * value + (c - 48)) t
          (sym (ap (λ (p : ℕ × Text). p.1) r) ∙ h) in
      ((ground (arith, e), ds), ap (λ (p : ℕ × Text). p.0) r ∙ n)
  | inr e ↦
      let r : take_digits value (c ∷ t) ≡ (value, c ∷ t) = rw e refl in
      absurd (omega (arith, ap length (sym (ap (λ (p : ℕ × Text). p.1) r) ∙ h)))
]

-- Equally long digit strings grow with what they follow on.
number_from-lt :
    (t u : Text) (a b : ℕ)
    → All IsDigit t
    → All IsDigit u
    → length t ≡ length u
    → a < b
    → number_from a t < number_from b u
unfolding number_from
number_from-lt [] [] a b d e l h = h
number_from-lt [] (x ∷ u) a b d e l h = absurd (omega (arith, l))
number_from-lt (c ∷ t) [] a b d e l h = absurd (omega (arith, l))
number_from-lt (c ∷ t) (x ∷ u) a b (d, ds) (e, es) l h =
    number_from-lt t u (10 * a + (c - 48)) (10 * b + (x - 48)) ds es (omega (arith, l))
      (omega (arith, d, e, h))

number_from-injective :
    (t u : Text) (a b : ℕ)
    → All IsDigit t
    → All IsDigit u
    → length t ≡ length u
    → number_from a t ≡ number_from b u
    → (a ≡ b) × (t ≡ u)
unfolding number_from
number_from-injective [] [] a b d e l h = (h, refl)
number_from-injective [] (x ∷ u) a b d e l h = absurd (omega (arith, l))
number_from-injective (c ∷ t) [] a b d e l h = absurd (omega (arith, l))
number_from-injective (c ∷ t) (x ∷ u) a b (d, ds) (e, es) l h =
    let (k, r) =
      number_from-injective t u (10 * a + (c - 48)) (10 * b + (x - 48)) ds es (omega (arith, l))
        h in
    (omega (arith, d, e, k), ap₂ ◌∷◌ (omega (arith, d, e, k)) r)

le_cases : (m n : ℕ) → m ≤ suc n → (m ≡ suc n) ⊎ (m ≤ n)
le_cases m n h = omega arith

-- A longer string that follows on a positive number is the larger one.
number_from-longer :
    (t u : Text) (a : ℕ)
    → All IsDigit t
    → All IsDigit u
    → 0 < a
    → length u ≤ length t
    → number_from 0 u < number_from a t
unfolding number_from
number_from-longer [] u a d e p l = number_from-lt u [] 0 a e d (omega (arith, l)) p
number_from-longer (c ∷ t) u a (d, ds) e p l = elim (le_cases (length u) (length t) l) [
  | inl q ↦ number_from-lt u (c ∷ t) 0 a e (d, ds) q p
  | inr q ↦ number_from-longer t u (10 * a + (c - 48)) ds e (omega (arith, p)) q
]

lt_cases : (m n : ℕ) → (m < n) ⊎ ((m ≡ n) ⊎ (n < m))
lt_cases m n = omega arith

longer_numeral :
    (t u : Text)
    → IsNumeral t
    → IsNumeral u
    → length u < length t
    → number_from 0 u < number_from 0 t
unfolding number_from
longer_numeral [] u v w l = absurd (omega (arith, l))
longer_numeral (c ∷ t) u v w l =
    number_from-longer t u (10 * 0 + (c - 48)) v.digits.1 w.digits
      (ground (arith, v.no_zero, v.digits.0, w.some_digit, l)) (omega (arith, l))

-- Numerals of one number are the same.
pub numeral_unique :
    (t u : Text) → IsNumeral t → IsNumeral u → number_from 0 t ≡ number_from 0 u → t ≡ u
numeral_unique t u v w h = elim (lt_cases (length t) (length u)) [
  | inl l ↦ absurd (omega (arith, h, longer_numeral u t w v l))
  | inr (inl e) ↦ (number_from-injective t u 0 0 v.digits w.digits e h).1
  | inr (inr l) ↦ absurd (omega (arith, h, longer_numeral t u v w l))
]

-- `parse_component` accepts the numerals of the numbers of 32 bits, with their numbers.
pub parse_component-IsNumeral :
    (t : Text) → IsNumeral t → number_from 0 t < 2 ^ 32 → parse_component t ≡ some (number_from 0 t)
unfolding parse_component from_chars
parse_component-IsNumeral [] v l = absurd (omega (arith, v.some_digit))
parse_component-IsNumeral (c ∷ t) v l =
    let e : is_digit c ≡ true = ground (arith, v.digits.0) in
    let s : ltb (number_from 0 (c ∷ t)) (2 ^ 32) ≡ true = ground (arith, l) in
    rw (v.no_zero, take_digits-number_from 0 (c ∷ t) v.digits, e, s) refl

accepted :
    (ok : Bool) (r : ℕ × Text) (n : ℕ)
    → if_at_end (if ok then some r else none) ≡ some n
    → (ok ≡ true) × ((r.1 ≡ []) × (r.0 ≡ n))
accepted false r n h = absurd (cc h)
accepted true (value, []) n h = (refl, (refl, cc h))
accepted true (value, c ∷ t) n h = absurd (cc h)

not_refused :
    (no : Bool) (o : Option ℕ) (n : ℕ)
    → (if no then none else o) ≡ some n
    → (no ≡ false) × (o ≡ some n)
not_refused true o n h = absurd (cc h)
not_refused false o n h = (refl, h)

pub parse_component-some :
    (t : Text) (n : ℕ)
    → parse_component t ≡ some n
    → IsNumeral t × ((number_from 0 t ≡ n) × (n < 2 ^ 32))
unfolding parse_component from_chars
parse_component-some [] n h = absurd (cc h)
parse_component-some (c ∷ t) n h =
    let (passes, g) =
      not_refused (ltb 1 (length (c ∷ t)) && is_zero_in_front (c ∷ t))
        (if_at_end (from_chars (c ∷ t))) n h in
    let (ok, (end_, value)) =
      accepted (is_digit c && ltb (take_digits 0 (c ∷ t)).0 (2 ^ 32)) (take_digits 0 (c ∷ t)) n g in
    let (digits, same) = number_from-take_digits 0 (c ∷ t) end_ in
    (
      record { digits = digits; some_digit = omega arith; no_zero = passes },
      (sym same ∙ value, ground (arith, ok, value)),
    )
