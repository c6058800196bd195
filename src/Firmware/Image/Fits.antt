-- ===== src/Firmware/Image/Fits.antt =====
-- components/smoker_platform/src/firmware_update_support.cpp: the texts of an image fit the status.
use smoker_firmware.Common.{
  ℕ, zero, suc, ◌≤◌, ◌<◌, ◌≡◌, refl, ap, List, [], ◌∷◌, Bool, true, false, Option, none, some,
  arith, if◌then◌else◌, ◌==◌, length, take, drop,
}
use mathlib.Core.Option.{some-injective}
use smoker_firmware.Firmware.Version.{Text}
use smoker_firmware.Firmware.Image.{
  FirmwareImageMetadata, app_version_offset, app_project_name_offset, copy_c_string_from_bytes,
  is_not_image, read_u16_le, image_chip_id_offset, metadata_of, parse_firmware_image_metadata,
}

shorter_step :
    (b : ℕ) (bytes : List ℕ) (q : Bool) (rest : Option Text) (t : Text)
    → ((u : Text) → rest ≡ some u → length u < length bytes)
    → if◌then◌else◌ {A = Option Text} q
        (some [])
        (elim rest [ none ↦ none | some u ↦ some (b ∷ u) ])
      ≡ some t
    → length t < suc (length bytes)
shorter_step b bytes true rest t s h = omega (arith, ap length (some-injective [] t h))
shorter_step b bytes false none t s h = absurd (cc h)
shorter_step b bytes false (some u) t s h =
    omega (arith, s u refl, ap length (some-injective (b ∷ u) t h))

copy_c_string-shorter :
    (bytes : List ℕ) (t : Text) → copy_c_string_from_bytes bytes ≡ some t → length t < length bytes
unfolding copy_c_string_from_bytes
copy_c_string-shorter [] t h = absurd (cc h)
copy_c_string-shorter (b ∷ bytes) t h =
    shorter_step b bytes (b == 0) (copy_c_string_from_bytes bytes) t
      (λ u e. copy_c_string-shorter bytes u e) h

length-take : (n : ℕ) (xs : List ℕ) → length (take n xs) ≤ n
length-take zero xs = omega arith
length-take (suc n) [] = omega arith
length-take (suc n) (x ∷ xs) = omega (arith, length-take n xs)

take_all_of : (n : ℕ) (xs : List ℕ) → length xs ≤ n → take n xs ≡ xs
take_all_of zero [] h = refl
take_all_of zero (x ∷ xs) h = absurd (omega (arith, h))
take_all_of (suc n) [] h = refl
take_all_of (suc n) (x ∷ xs) h = ap (◌∷◌ x) (take_all_of n xs (omega (arith, h)))

parsed_version :
    (refuse : Bool) (chip_id : ℕ) (version project_name : Option Text) (m : FirmwareImageMetadata)
    → (if refuse then none else metadata_of chip_id version project_name) ≡ some m
    → version ≡ some m.version
parsed_version true chip_id version project_name m h = absurd (cc h)
parsed_version false chip_id none project_name m h = absurd (cc h)
parsed_version false chip_id (some v) none m h = absurd (cc h)
parsed_version false chip_id (some v) (some p) m h =
    ap (λ (x : FirmwareImageMetadata). some x.version)
      (some-injective (record { chip_id = chip_id; project_name = p; version = v }) m h)

-- The version of a parsed image has less than 32 characters and is copied whole.
pub version-fits :
    (prefix : List ℕ) (m : FirmwareImageMetadata)
    → parse_firmware_image_metadata prefix ≡ some m
    → take 31 m.version ≡ m.version
unfolding parse_firmware_image_metadata
version-fits prefix m h =
    let v =
      parsed_version (is_not_image prefix) (read_u16_le prefix image_chip_id_offset)
        (copy_c_string_from_bytes (take 32 (drop app_version_offset prefix)))
        (copy_c_string_from_bytes (take 32 (drop app_project_name_offset prefix))) m h in
    take_all_of 31 m.version (
      omega (
        arith,
        copy_c_string-shorter (take 32 (drop app_version_offset prefix)) m.version v,
        length-take 32 (drop app_version_offset prefix),
      ))
