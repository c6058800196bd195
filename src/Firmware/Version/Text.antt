-- ===== src/Firmware/Version/Text.antt =====
-- components/smoker_platform/src/firmware_update_support.cpp: the texts that `SemanticVersion::parse`
-- accepts.
use smoker_firmware.Common.{
  ℕ, zero, suc, ◌+◌, ◌-◌, ◌*◌, ◌/◌, ◌%◌, ◌^◌, ◌≤◌, ◌<◌, ◌≡◌, ◌↔◌, refl, sym, ap, subst, ◌∙◌, [],
  ◌∷◌, ◌++◌, All-append, false, ◌⊎◌, inl, inr, some, arith, if◌then◌else◌, ltb, length,
  length-append,
}
use smoker_firmware.Firmware.Version.{Text, SemanticVersion, dot, is_zero_in_front, parse_component}
use smoker_firmware.Firmware.Version.Numeral.{
  IsDigit, number_from, IsNumeral, numeral_unique, parse_component-IsNumeral, parse_component-some,
}

-- The decimal numeral of a number below the fuel.
unfoldable pub digits : ℕ → ℕ → Text
digits zero n = []
digits (suc fuel) n =
    let front = digits fuel (n / 10) in
    if ltb n 10 then (48 + n) ∷ [] else front ++ ((48 + n % 10) ∷ [])

abbrev pub decimal : ℕ → Text
decimal n = digits (suc n) n

-- A version as it is written: three numerals with dots between them.
abbrev pub print : SemanticVersion → Text
print v = decimal v.major ++ (dot ∷ (decimal v.minor ++ (dot ∷ decimal v.patch)))

pub record IsVersion (v : SemanticVersion) : Type 0 where
  pub major : v.major < 2 ^ 32
  pub minor : v.minor < 2 ^ 32
  pub patch : v.patch < 2 ^ 32

number_from-append :
    (a : ℕ) (t : Text) (d : ℕ) → number_from a (t ++ (d ∷ [])) ≡ 10 * number_from a t + (d - 48)
unfolding number_from
number_from-append a [] d = refl
number_from-append a (c ∷ t) d = number_from-append (10 * a + (c - 48)) t d

in_front : (t u : Text) → 0 < length t → is_zero_in_front (t ++ u) ≡ is_zero_in_front t
in_front [] u l = absurd (omega (arith, l))
in_front (c ∷ t) u l = refl

not_zero_in_front : (t : Text) → IsNumeral t → 0 < number_from 0 t → is_zero_in_front t ≡ false
unfolding number_from
not_zero_in_front [] v p = refl
not_zero_in_front (c ∷ []) v p = ground (arith, p)
not_zero_in_front (c ∷ d ∷ t) v p = ground (arith, v.no_zero)

-- The numeral of a number without its last digit, with that digit behind it.
snoc-IsNumeral :
    (t : Text) (n : ℕ)
    → 10 ≤ n
    → IsNumeral t
    → number_from 0 t ≡ n / 10
    → IsNumeral (t ++ ((48 + n % 10) ∷ [])) × (number_from 0 (t ++ ((48 + n % 10) ∷ [])) ≡ n)
snoc-IsNumeral t n l v e =
    let z =
      in_front t ((48 + n % 10) ∷ []) v.some_digit ∙ not_zero_in_front t v (omega (arith, l, e)) in
    (
      record {
        digits =
            All-append IsDigit t ((48 + n % 10) ∷ []) v.digits ((omega arith, omega arith), tt);
        some_digit = omega (arith, length-append t ((48 + n % 10) ∷ []));
        no_zero = ground (arith, z);
      },
      omega (arith, number_from-append 0 t (48 + n % 10), e),
    )

digit_cases : (n : ℕ) → (n < 10) ⊎ (10 ≤ n)
digit_cases n = omega arith

digits-IsNumeral :
    (fuel n : ℕ) → n < fuel → IsNumeral (digits fuel n) × (number_from 0 (digits fuel n) ≡ n)
unfolding digits number_from
digits-IsNumeral zero n l = absurd (omega (arith, l))
digits-IsNumeral (suc fuel) n l = elim (digit_cases n) [
  | inl s ↦
      let e : digits (suc fuel) n ≡ (48 + n) ∷ [] = ground (arith, s) in
      subst (λ t. IsNumeral t × (number_from 0 t ≡ n)) (sym e)
        (
          record {
            digits = ((omega arith, omega (arith, s)), tt);
            some_digit = omega arith;
            no_zero = refl;
          },
          omega arith,
        )
  | inr s ↦
      let e : digits (suc fuel) n ≡ digits fuel (n / 10) ++ ((48 + n % 10) ∷ []) =
        ground (arith, s) in
      let (v, m) = digits-IsNumeral fuel (n / 10) (omega (arith, l, s)) in
      subst (λ t. IsNumeral t × (number_from 0 t ≡ n)) (sym e)
        (snoc-IsNumeral (digits fuel (n / 10)) n s v m)
]

pub decimal-IsNumeral : (n : ℕ) → IsNumeral (decimal n) × (number_from 0 (decimal n) ≡ n)
decimal-IsNumeral n = digits-IsNumeral (suc n) n (omega arith)

-- A component is accepted just where it is the numeral of its number.
pub component_iff :
    (t : Text) (n : ℕ) → (parse_component t ≡ some n) ↔ ((n < 2 ^ 32) × (t ≡ decimal n))
component_iff t n =
    let (d, same) = decimal-IsNumeral n in
    (
      (λ h.
          let (v, (e, l)) = parse_component-some t n h in
          (l, numeral_unique t (decimal n) v d (e ∙ sym same))),
      (λ (l, e).
          ap parse_component e
          ∙ parse_component-IsNumeral (decimal n) d (omega (arith, same, l))
          ∙ ap some same),
    )
