-- ===== src/Firmware/Image.antt =====
-- components/smoker_platform/src/firmware_update_support.cpp: the metadata in front of an image, and
-- what it is compared with.
pub mod Fits
use smoker_firmware.Common.{
  ℕ, ◌+◌, ◌*◌, ◌<◌, ◌≡◌, refl, sym, ap, ◌∙◌, List, [], ◌∷◌, Bool, true, false, not, ◌||◌, Option,
  none, some, if◌then◌else◌, ◌==◌, ltb, length, take, drop, get_elem?,
}
use smoker_firmware.Firmware.Version.{Text, SemanticVersion, parse, is_newer}

abbrev pub firmware_project_name : Text
firmware_project_name =
    115 ∷ 109 ∷ 111 ∷ 107 ∷ 101 ∷ 114 ∷ 95 ∷ 99 ∷ 111 ∷ 110 ∷ 116 ∷ 114 ∷ 111 ∷ 108 ∷ 108 ∷ 101
    ∷ 114 ∷ []

abbrev pub firmware_target_chip_id : ℕ
firmware_target_chip_id = 0x0009

abbrev pub firmware_image_header_size : ℕ
firmware_image_header_size = 24

abbrev pub firmware_segment_header_size : ℕ
firmware_segment_header_size = 8

abbrev pub firmware_app_descriptor_size : ℕ
firmware_app_descriptor_size = 256

abbrev pub firmware_metadata_prefix_size : ℕ
firmware_metadata_prefix_size =
    firmware_image_header_size + firmware_segment_header_size + firmware_app_descriptor_size

abbrev pub image_header_magic : ℕ
image_header_magic = 0xe9

abbrev pub application_descriptor_magic : ℕ
application_descriptor_magic = 0xabcd5432

abbrev pub image_chip_id_offset : ℕ
image_chip_id_offset = 12

abbrev pub app_descriptor_offset : ℕ
app_descriptor_offset = firmware_image_header_size + firmware_segment_header_size

abbrev pub app_version_offset : ℕ
app_version_offset = app_descriptor_offset + 16

abbrev pub app_project_name_offset : ℕ
app_project_name_offset = app_version_offset + 32

-- `FirmwareImageMetadata`; its two arrays are read as C strings, and this is what they read as.
pub record FirmwareImageMetadata : Type 0 where
  pub chip_id : ℕ
  pub project_name : Text
  pub version : Text

pub record FirmwareImageDescriptor : Type 0 where
  pub project_name : Text
  pub chip_id : ℕ
  pub version : Text

abbrev pub descriptor : FirmwareImageMetadata → FirmwareImageDescriptor
descriptor m = record { project_name = m.project_name; chip_id = m.chip_id; version = m.version }

-- A byte of the prefix; the offsets used are within its tested size.
abbrev pub byte_at : List ℕ → ℕ → ℕ
byte_at bytes offset = elim (get_elem? bytes offset) [ none ↦ 0 | some b ↦ b ]

abbrev pub read_u16_le : List ℕ → ℕ → ℕ
read_u16_le bytes offset = byte_at bytes offset + 0x100 * byte_at bytes (offset + 1)

abbrev pub read_u32_le : List ℕ → ℕ → ℕ
read_u32_le bytes offset =
    byte_at bytes offset
    + 0x100 * byte_at bytes (offset + 1)
    + 0x10000 * byte_at bytes (offset + 2)
    + 0x1000000 * byte_at bytes (offset + 3)

-- The bytes before the first zero; `none` without one.
unfoldable pub copy_c_string_from_bytes : List ℕ → Option Text
copy_c_string_from_bytes [] = none
copy_c_string_from_bytes (b ∷ bytes) =
    let rest = copy_c_string_from_bytes bytes in
    if b == 0 then some [] else elim rest [ none ↦ none | some t ↦ some (b ∷ t) ]

abbrev pub metadata_of : ℕ → Option Text → Option Text → Option FirmwareImageMetadata
metadata_of chip_id (some version) (some project_name) =
    some (record { chip_id = chip_id; project_name = project_name; version = version })
metadata_of chip_id _ _ = none

abbrev pub is_not_image : List ℕ → Bool
is_not_image prefix =
    ltb (length prefix) firmware_metadata_prefix_size
    || (not (byte_at prefix 0 == image_header_magic)
        || not (read_u32_le prefix app_descriptor_offset == application_descriptor_magic))

unfoldable pub parse_firmware_image_metadata : List ℕ → Option FirmwareImageMetadata
unfolding copy_c_string_from_bytes
parse_firmware_image_metadata prefix =
    if is_not_image prefix
    then none
    else metadata_of (read_u16_le prefix image_chip_id_offset)
        (copy_c_string_from_bytes (take 32 (drop app_version_offset prefix)))
        (copy_c_string_from_bytes (take 32 (drop app_project_name_offset prefix)))

pub data FirmwareDescriptorDecision : Type 0 where
  newer not_newer invalid_version wrong_project wrong_target : FirmwareDescriptorDecision

abbrev pub text_eq : Text → Text → Bool
text_eq [] [] = true
text_eq (a ∷ t) (b ∷ u) = if a == b then text_eq t u else false
text_eq _ _ = false

unfoldable pub decision_of : Option SemanticVersion → SemanticVersion → FirmwareDescriptorDecision
unfolding is_newer
decision_of none current = FirmwareDescriptorDecision.invalid_version
decision_of (some candidate) current =
    if is_newer candidate current
    then FirmwareDescriptorDecision.newer
    else FirmwareDescriptorDecision.not_newer

unfoldable pub validate_firmware_descriptor :
    FirmwareImageDescriptor → SemanticVersion → FirmwareDescriptorDecision
unfolding parse decision_of
validate_firmware_descriptor d current =
    if not (text_eq d.project_name firmware_project_name)
    then FirmwareDescriptorDecision.wrong_project
    else if not (d.chip_id == firmware_target_chip_id)
    then FirmwareDescriptorDecision.wrong_target
    else decision_of (parse d.version) current
