-- ===== src/Firmware/Version.antt =====
-- components/smoker_platform/src/firmware_update_support.cpp: `SemanticVersion`.
pub mod Numeral
pub mod Text
pub mod Parse
use smoker_firmware.Common.{
  ℕ, ◌+◌, ◌-◌, ◌*◌, ◌^◌, List, [], ◌∷◌, Bool, true, false, ◌&&◌, ◌||◌, Option, none, some,
  if◌then◌else◌, ◌==◌, ltb, leb, length,
}

-- `std::string_view`, the codes of its characters.
abbrev pub Text : Type 0
Text = List ℕ

pub record SemanticVersion : Type 0 where
  pub major : ℕ
  pub minor : ℕ
  pub patch : ℕ

abbrev pub dot : ℕ
dot = 46

abbrev pub is_digit : ℕ → Bool
is_digit c = leb 48 c && leb c 57

-- The digits in front, as a number that continues `value`, and what follows them.
unfoldable pub take_digits : ℕ → Text → ℕ × Text
take_digits value [] = (value, [])
take_digits value (c ∷ t) =
    let rest = take_digits (10 * value + (c - 48)) t in if is_digit c then rest else (value, c ∷ t)

-- `std::from_chars` for an unsigned number of 32 bits: an error without a digit and on overflow.
unfoldable pub from_chars : Text → Option (ℕ × Text)
unfolding take_digits
from_chars [] = none
from_chars (c ∷ t) =
    let (value, rest) = take_digits 0 (c ∷ t) in
    if is_digit c && ltb value (2 ^ 32) then some (value, rest) else none

abbrev pub is_zero_in_front : Text → Bool
is_zero_in_front [] = false
is_zero_in_front (c ∷ t) = c == 48

abbrev pub is_empty_text : Text → Bool
is_empty_text [] = true
is_empty_text (c ∷ t) = false

abbrev pub if_at_end : Option (ℕ × Text) → Option ℕ
if_at_end none = none
if_at_end (some (value, [])) = some value
if_at_end (some (value, c ∷ t)) = none

unfoldable pub parse_component : Text → Option ℕ
unfolding from_chars
parse_component t =
    if is_empty_text t || (ltb 1 (length t) && is_zero_in_front t)
    then none
    else if_at_end (from_chars t)

-- `find('.')` with the two `substr` around the dot.
unfoldable pub cut : Text → Option (Text × Text)
cut [] = none
cut (c ∷ t) =
    let rest = cut t in
    if c == dot then some ([], t) else elim rest [ none ↦ none | some (a, b) ↦ some (c ∷ a, b) ]

abbrev pub version_of : Option ℕ → Option ℕ → Option ℕ → Option SemanticVersion
version_of (some major) (some minor) (some patch) =
    some (record { major = major; minor = minor; patch = patch })
version_of _ _ _ = none

-- The text behind the second dot has no third one.
abbrev pub parse_parts : Text → Text → Text → Option (Text × Text) → Option SemanticVersion
unfolding parse_component
parse_parts a b c (some third) = none
parse_parts a b c none = version_of (parse_component a) (parse_component b) (parse_component c)

abbrev pub parse_behind : Text → Option (Text × Text) → Option SemanticVersion
unfolding cut parse_parts
parse_behind a none = none
parse_behind a (some (b, c)) = parse_parts a b c (cut c)

abbrev pub parse_cut : Option (Text × Text) → Option SemanticVersion
unfolding cut parse_behind
parse_cut none = none
parse_cut (some (a, rest)) = parse_behind a (cut rest)

unfoldable pub parse : Text → Option SemanticVersion
unfolding cut parse_cut
parse t = parse_cut (cut t)

-- `a > b` of the defaulted comparison.
unfoldable pub is_newer : SemanticVersion → SemanticVersion → Bool
is_newer a b =
    ltb b.major a.major
    || (a.major == b.major && (ltb b.minor a.minor || (a.minor == b.minor && ltb b.patch a.patch)))
