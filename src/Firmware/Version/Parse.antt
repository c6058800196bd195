-- ===== src/Firmware/Version/Parse.antt =====
-- components/smoker_platform/src/firmware_update_support.cpp: `SemanticVersion::parse` reads the
-- versions as they are written, and nothing else.
use mathlib.Core.Option.{some-injective}
use smoker_firmware.Common.{
  ℕ, ◌≡◌, ◌↔◌, refl, sym, ap, ◌∙◌, [], ◌∷◌, ◌++◌, All, Bool, true, false, Option-cases, inl, inr,
  Option, none, some, arith, if◌then◌else◌, ◌==◌, ==_iff,
}
use smoker_firmware.Firmware.Version.{
  Text, SemanticVersion, dot, parse_component, cut, version_of, parse_parts, parse_behind,
  parse_cut, parse,
}
use smoker_firmware.Firmware.Version.Numeral.{IsDigit}
use smoker_firmware.Firmware.Version.Text.{
  decimal, print, IsVersion, decimal-IsNumeral, component_iff,
}

cut-append : (a b : Text) → All IsDigit a → cut (a ++ (dot ∷ b)) ≡ some (a, b)
unfolding cut
cut-append [] b d = refl
cut-append (c ∷ a) b (d, ds) =
    let e : (c == dot) ≡ false = ground (arith, d) in rw (e, cut-append a b ds) refl

cut-none : (a : Text) → All IsDigit a → cut a ≡ none
unfolding cut
cut-none [] d = refl
cut-none (c ∷ a) (d, ds) =
    let e : (c == dot) ≡ false = ground (arith, d) in rw (e, cut-none a ds) refl

joined :
    (c : ℕ) (t a b : Text) (q : Bool) (rest : Option (Text × Text))
    → (q ≡ true → c ≡ dot)
    → ((x y : Text) → rest ≡ some (x, y) → t ≡ x ++ (dot ∷ y))
    → if◌then◌else◌ {A = Option (Text × Text)} q
        (some ([], t))
        (elim rest [ none ↦ none | some (x, y) ↦ some (c ∷ x, y) ])
      ≡ some (a, b)
    → c ∷ t ≡ a ++ (dot ∷ b)
joined c t a b true rest e s h =
    ap (λ x. x ∷ t) (e refl)
    ∙ ap (λ (p : Text × Text). p.0 ++ (dot ∷ p.1)) (some-injective ([], t) (a, b) h)
joined c t a b false none e s h = absurd (cc h)
joined c t a b false (some (x, y)) e s h =
    ap (◌∷◌ c) (s x y refl)
    ∙ ap (λ (p : Text × Text). p.0 ++ (dot ∷ p.1)) (some-injective (c ∷ x, y) (a, b) h)

cut-some : (t a b : Text) → cut t ≡ some (a, b) → t ≡ a ++ (dot ∷ b)
unfolding cut
cut-some [] a b h = absurd (cc h)
cut-some (c ∷ t) a b h =
    joined c t a b (c == dot) (cut t) (λ e. (==_iff c dot).0 e) (λ x y s. cut-some t x y s) h

parts :
    (x y z : Option ℕ) (v : SemanticVersion)
    → version_of x y z ≡ some v
    → (x ≡ some v.major) × ((y ≡ some v.minor) × (z ≡ some v.patch))
parts (some x) (some y) (some z) v h =
    let e = some-injective (record { major = x; minor = y; patch = z }) v h in
    (
      ap (λ (w : SemanticVersion). some w.major) e,
      (ap (λ (w : SemanticVersion). some w.minor) e, ap (λ (w : SemanticVersion). some w.patch) e),
    )
parts none y z v h = absurd (cc h)
parts (some x) none z v h = absurd (cc h)
parts (some x) (some y) none v h = absurd (cc h)

-- The two cuts that a parsed text has.
abbrev Pieces : Text → SemanticVersion → Type 0
Pieces t v =
    (a b c : Text) × ((t ≡ a ++ (dot ∷ (b ++ (dot ∷ c))))
      × ((parse_component a ≡ some v.major)
          × ((parse_component b ≡ some v.minor) × (parse_component c ≡ some v.patch))))

pieces_behind :
    (a b c : Text) (third : Option (Text × Text)) (v : SemanticVersion)
    → parse_parts a b c third ≡ some v
    → (parse_component a ≡ some v.major)
      × ((parse_component b ≡ some v.minor) × (parse_component c ≡ some v.patch))
unfolding parse_parts
pieces_behind a b c (some third) v h = absurd (cc h)
pieces_behind a b c none v h = parts (parse_component a) (parse_component b) (parse_component c) v h

pieces : (t : Text) (v : SemanticVersion) → parse t ≡ some v → Pieces t v
unfolding parse
pieces t v h = elim (Option-cases (cut t)) [
  | inl e ↦ absurd (cc (h, ap parse_cut e))
  | inr ((a, rest), e) ↦ elim (Option-cases (cut rest)) [
    | inl f ↦ absurd (cc (h, ap parse_cut e, ap (parse_behind a) f))
    | inr ((b, c), f) ↦ (
      a,
      b,
      c,
      (
        cut-some t a rest e ∙ ap (λ r. a ++ (dot ∷ r)) (cut-some rest b c f),
        pieces_behind a b c (cut c) v (sym (ap (parse_behind a) f) ∙ sym (ap parse_cut e) ∙ h),
      ),
    )
  ]
]

pub parse-print : (v : SemanticVersion) → IsVersion v → parse (print v) ≡ some v
unfolding parse
parse-print v h =
    let (a, m) = decimal-IsNumeral v.major in
    let (b, n) = decimal-IsNumeral v.minor in
    let (c, o) = decimal-IsNumeral v.patch in
    ap parse_cut
      (cut-append (decimal v.major) (decimal v.minor ++ (dot ∷ decimal v.patch)) a.digits)
    ∙ ap (parse_behind (decimal v.major)) (cut-append (decimal v.minor) (decimal v.patch) b.digits)
    ∙ ap (parse_parts (decimal v.major) (decimal v.minor) (decimal v.patch))
        (cut-none (decimal v.patch) c.digits)
    ∙ (λ i.
        version_of ((component_iff (decimal v.major) v.major).1 (h.major, refl) i)
          ((component_iff (decimal v.minor) v.minor).1 (h.minor, refl) i)
          ((component_iff (decimal v.patch) v.patch).1 (h.patch, refl) i))

-- `parse` accepts the versions of three numbers of 32 bits, each written in decimal without leading
-- zeros, with a dot between them, and returns these numbers; it refuses every other text. So two
-- texts of one version are the same text.
pub parse_iff :
    (t : Text) (v : SemanticVersion) → (parse t ≡ some v) ↔ (IsVersion v × (t ≡ print v))
parse_iff t v = (
  (λ h.
      let (a, b, c, s) = pieces t v h in
      let (split, parsed) = s in
      let (x, (y, z)) = parsed in
      let (l, p) = (component_iff a v.major).0 x in
      let (m, q) = (component_iff b v.minor).0 y in
      let (n, r) = (component_iff c v.patch).0 z in
      (
        record { major = l; minor = m; patch = n },
        split ∙ (λ i. p i ++ (dot ∷ (q i ++ (dot ∷ r i)))),
      )),
  (λ (h, e). ap parse e ∙ parse-print v h),
)
