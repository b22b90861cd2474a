-- ===== src/Firmware/Bundle.antt =====
-- firmware.rs: the parser of the firmware bundle.
pub mod Images
pub mod Parse
use Prim.Native.Nat.{ℕ, zero, suc, ◌+◌, ◌-◌, ◌^◌}
use embassy_zephyr_n_rf.Base.{
  List, Bool, true, false, not, ◌||◌, ltb, ◌==◌, bit_set, if◌then◌else◌, Outcome, ok, err, panic,
  ok_or, reject_if, checked_add, length, ◌>>=◌, ◌>>◌, read_u32,
}
use embassy_zephyr_n_rf.Base.Bytes.{slice}
use embassy_zephyr_n_rf.Memory.Address.{Processor}

abbrev pub patch_signature : ℕ
patch_signature = 0xdead1eaf

abbrev pub patch_image_count : ℕ
patch_image_count = 4

abbrev pub pinned_patch_version : ℕ
pinned_patch_version = 0x01020e09

abbrev pub feature_system_mode : ℕ
feature_system_mode = 2 ^ 0

abbrev pub patch_header_len : ℕ
patch_header_len = 52

abbrev pub image_header_len : ℕ
image_header_len = 8

pub data FirmwareError : Type 0 where
  truncated_header : FirmwareError
  bad_signature bad_image_count incompatible_version incompatible_features : ℕ → FirmwareError
  truncated_payload truncated_image : FirmwareError
  invalid_image_type : ℕ → FirmwareError
  length_mismatch hash_mismatch untrusted_image : FirmwareError

pub data ImageKind : Type 0 where
  umac_primary umac_secondary lmac_primary lmac_secondary : ImageKind

-- `kind as u32`
unfoldable pub kind_value : ImageKind → ℕ
kind_value ImageKind.umac_primary = 0
kind_value ImageKind.umac_secondary = 1
kind_value ImageKind.lmac_primary = 2
kind_value ImageKind.lmac_secondary = 3

unfoldable pub from_u32 : ℕ → Outcome FirmwareError ImageKind
from_u32 value =
    if value == 0
    then ok ImageKind.umac_primary
    else if value == 1
    then ok ImageKind.umac_secondary
    else if value == 2
    then ok ImageKind.lmac_primary
    else if value == 3
    then ok ImageKind.lmac_secondary
    else err (FirmwareError.invalid_image_type value)

pub record FirmwareHeader : Type 0 where
  pub version : ℕ
  pub feature_flags : ℕ
  pub payload_len : ℕ
  pub hash : List ℕ

pub record FirmwareImage : Type 0 where
  pub kind : ImageKind
  pub data_bytes : List ℕ

pub record FirmwareBundle : Type 0 where
  pub bytes : List ℕ
  pub header : FirmwareHeader
  pub payload_end : ℕ

unfoldable pub parse_compatible_header : List ℕ → Outcome FirmwareError FirmwareHeader
parse_compatible_header bytes = do
  signature ← read_u32 bytes 0
  reject_if (not (signature == patch_signature)) (FirmwareError.bad_signature signature)
  image_count ← read_u32 bytes 4
  reject_if (not (image_count == patch_image_count)) (FirmwareError.bad_image_count image_count)
  version ← read_u32 bytes 8
  reject_if (not (version == pinned_patch_version)) (FirmwareError.incompatible_version version)
  feature_flags ← read_u32 bytes 12
  reject_if (not (feature_flags == feature_system_mode))
      (FirmwareError.incompatible_features feature_flags)
  payload_len ← read_u32 bytes 16
  hash ← slice bytes 20 patch_header_len
  ok record {
    version = version;
    feature_flags = feature_flags;
    payload_len = payload_len;
    hash = hash;
  }

unfoldable pub exact_payload_end : List ℕ → ℕ → Outcome FirmwareError ℕ
exact_payload_end bytes payload_len = do
  payload_end ← ok_or (checked_add patch_header_len payload_len) FirmwareError.truncated_payload
  reject_if (ltb (length bytes) payload_end) FirmwareError.truncated_payload
  reject_if (not (payload_end == length bytes)) FirmwareError.length_mismatch
  ok payload_end

-- The kind of the image whose header is at the offset, and where its bytes start and end.
unfoldable pub image_extent : FirmwareBundle → ℕ → Outcome FirmwareError (ImageKind × ℕ × ℕ)
image_extent bundle offset = do
  header_end ← ok_or (checked_add offset image_header_len) FirmwareError.truncated_image
  reject_if (ltb bundle.payload_end header_end) FirmwareError.truncated_image
  value ← read_u32 bundle.bytes offset
  kind ← from_u32 value
  len ← read_u32 bundle.bytes (offset + 4)
  end ← ok_or (checked_add header_end len) FirmwareError.truncated_image
  reject_if (ltb bundle.payload_end end) FirmwareError.truncated_image
  ok (kind, header_end, end)

-- One round of the loop in `validate_images`: `seen & mask` is the bit of the kind.
unfoldable pub see_image : ℕ → ImageKind × ℕ × ℕ → Outcome FirmwareError (ℕ × ℕ)
see_image seen (kind, start, end) = do
  reject_if (bit_set seen (kind_value kind)) (FirmwareError.invalid_image_type (kind_value kind))
  ok (end, seen + 2 ^ kind_value kind)

-- The rounds left, the offset, and the mask of the kinds seen.
unfoldable pub validate_rounds : FirmwareBundle → ℕ → ℕ × ℕ → Outcome FirmwareError (ℕ × ℕ)
validate_rounds bundle zero state = ok state
validate_rounds bundle (suc n) (offset, seen) = do
  extent ← image_extent bundle offset
  state ← see_image seen extent
  validate_rounds bundle n state

unfoldable pub validate_images : FirmwareBundle → Outcome FirmwareError (Unit {0})
validate_images bundle = do
  (offset, seen) ← validate_rounds bundle patch_image_count (patch_header_len, 0)
  reject_if (not (seen == 15) || not (offset == bundle.payload_end)) FirmwareError.length_mismatch

-- `FirmwareBundle::parse`
unfoldable pub parse_bundle : List ℕ → Outcome FirmwareError FirmwareBundle
parse_bundle bytes = do
  reject_if (ltb (length bytes) patch_header_len) FirmwareError.truncated_header
  header ← parse_compatible_header bytes
  payload_end ← exact_payload_end bytes header.payload_len
  validate_images record { bytes = bytes; header = header; payload_end = payload_end }
  ok record { bytes = bytes; header = header; payload_end = payload_end }

-- The rest of a round of the loop in `image`.
unfoldable pub image_at :
    FirmwareBundle
    → ImageKind
    → ImageKind × ℕ × ℕ
    → Outcome FirmwareError FirmwareImage
    → Outcome FirmwareError FirmwareImage
image_at bundle wanted (kind, start, end) rest =
    if kind_value kind == kind_value wanted
    then (do
      data_bytes ← slice bundle.bytes start end
      ok record { kind = kind; data_bytes = data_bytes })
    else rest

unfoldable pub image_rounds :
    FirmwareBundle → ImageKind → ℕ → ℕ → Outcome FirmwareError FirmwareImage
image_rounds bundle wanted zero offset = err (FirmwareError.invalid_image_type (kind_value wanted))
image_rounds bundle wanted (suc n) offset = do
  extent ← image_extent bundle offset
  let rest = image_rounds bundle wanted n extent.2
  image_at bundle wanted extent rest

-- `FirmwareBundle::image`
unfoldable pub image : FirmwareBundle → ImageKind → Outcome FirmwareError FirmwareImage
image bundle wanted = image_rounds bundle wanted patch_image_count patch_header_len
