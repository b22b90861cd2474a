-- ===== src/Firmware/Loader/OverBus.antt =====
-- firmware.rs over memory.rs: the loader on the operations of `Rpu`, and its downloads.
use embassy_zephyr_n_rf.Base.{refl}
use Prim.Native.Nat.{◌+◌, ◌≤◌, ◌-◌}
use embassy_zephyr_n_rf.Base.Post.{Post-ok}
use embassy_zephyr_n_rf.Firmware.Bundle.Images.{Found}
use embassy_zephyr_n_rf.Firmware.Bundle.Parse.{IsBundle, parse_bundle-IsBundle}
use embassy_zephyr_n_rf.Firmware.Bundle.{FirmwareBundle, image, parse_bundle}
use embassy_zephyr_n_rf.Firmware.Loader.{download_image, download_images}
use embassy_zephyr_n_rf.Firmware.Loader.Sequence.{image_bytes}
use embassy_zephyr_n_rf.Memory.Rpu.Flat.{
  FlatMemory, patch, window, flat, window-patch, window-patch_other,
}
use embassy_zephyr_n_rf.Memory.Rpu.Transfers.{padded, write_lem}
use embassy_zephyr_n_rf.Base.{
  ap, ◌∙◌, length, length-append, length-replicate, replicate, ◌⊎◌, inl, inr,
}
use Prim.Native.Nat.{ℕ, ◌≤◌}
use embassy_zephyr_n_rf.Base.{length, List, ◌≡◌, ok, arith}
use embassy_zephyr_n_rf.Memory.Address.{
  validate_access, checked_range, host_offset, shared_region_base, processor_region_base,
  lmac_region_base, umac_region_base,
}
use embassy_zephyr_n_rf.Memory.Rpu.{
  Bus, reset_processor, write, write_u32, write_register, read_u32,
}
use embassy_zephyr_n_rf.Memory.Rpu.Chunks.{Contiguous}
use embassy_zephyr_n_rf.Memory.Rpu.Transfers.{padded, padded_len}
use embassy_zephyr_n_rf.Firmware.Bundle.{FirmwareBundle, ImageKind}
use embassy_zephyr_n_rf.Firmware.Loader.{download_images, download_image, RpuPort, destination}

-- The operations of `Rpu<B>` that the loader calls.
abbrev pub rpu_port : Bus → RpuPort
rpu_port bus = record {
  Rpu = bus.State;
  BusError = bus.Error;
  reset_processor = reset_processor bus;
  write = write bus;
  write_u32 = write_u32 bus;
  write_register = write_register bus;
  read_u32 = read_u32 bus;
  delay_ms = bus.delay_ms;
}

-- From the destination of an image to the next destination, or to the end of the region.
unfoldable pub area_len : ImageKind → ℕ
area_len ImageKind.umac_primary = 0x8800
area_len ImageKind.umac_secondary = 0xf800
area_len ImageKind.lmac_primary = 0x440
area_len ImageKind.lmac_secondary = 0x8140

-- The destination in the host window.
unfoldable pub host_area : ImageKind → ℕ
host_area ImageKind.umac_primary = 0x29b800
host_area ImageKind.umac_secondary = 0x28c000
host_area ImageKind.lmac_primary = 0x14bbc0
host_area ImageKind.lmac_secondary = 0x143a80

area_accepted :
    {E : Type 0} (kind : ImageKind) (len : ℕ)
    → len ≤ area_len kind
    → validate_access {E = E} (destination kind).0 (destination kind).1 len ≡ ok tt
unfolding destination area_len validate_access checked_range host_offset shared_region_base
    processor_region_base lmac_region_base umac_region_base
area_accepted ImageKind.umac_primary len h = ground arith
area_accepted ImageKind.umac_secondary len h = ground arith
area_accepted ImageKind.lmac_primary len h = ground arith
area_accepted ImageKind.lmac_secondary len h = ground arith

destination-host_offset :
    (kind : ImageKind) → host_offset (destination kind).0 (destination kind).1 ≡ ok (host_area kind)
unfolding destination host_area host_offset shared_region_base processor_region_base
    lmac_region_base umac_region_base
destination-host_offset ImageKind.umac_primary = refl
destination-host_offset ImageKind.umac_secondary = refl
destination-host_offset ImageKind.lmac_primary = refl
destination-host_offset ImageKind.lmac_secondary = refl

area-Contiguous :
    (kind : ImageKind) (len : ℕ)
    → len ≤ area_len kind
    → Contiguous (destination kind).0 (destination kind).1 (host_area kind) 0 (padded_len len)
unfolding destination area_len host_area host_offset shared_region_base processor_region_base
    lmac_region_base umac_region_base
area-Contiguous ImageKind.umac_primary len h k l = ground arith
area-Contiguous ImageKind.umac_secondary len h k l = ground arith
area-Contiguous ImageKind.lmac_primary len h k l = ground arith
area-Contiguous ImageKind.lmac_secondary len h k l = ground arith

padded-length : (bytes : List ℕ) → length (padded bytes) ≡ padded_len (length bytes)
padded-length bytes =
    let zeros = padded_len (length bytes) - length bytes in
    length-append bytes (replicate zeros 0) ∙ omega (arith, length-replicate {A = ℕ} zeros 0)

-- The memory after an image is written to its area.
abbrev placed : ImageKind → List ℕ → FlatMemory → FlatMemory
placed kind bytes m = patch m (host_area kind) (padded bytes)

abbrev pub bytes_of : FirmwareBundle → ImageKind → List ℕ
bytes_of bundle kind = image_bytes (image bundle kind)

-- The memory after the four downloads.
abbrev downloaded : FirmwareBundle → FlatMemory → FlatMemory
downloaded bundle m = placed ImageKind.lmac_secondary (bytes_of bundle ImageKind.lmac_secondary) (
    placed ImageKind.lmac_primary (bytes_of bundle ImageKind.lmac_primary) (
      placed ImageKind.umac_secondary (bytes_of bundle ImageKind.umac_secondary)
        (placed ImageKind.umac_primary (bytes_of bundle ImageKind.umac_primary) m)))

-- Each image is shorter than its area.
abbrev pub AllShort : FirmwareBundle → Type 0
AllShort bundle = (kind : ImageKind) → length (bytes_of bundle kind) ≤ area_len kind

-- The memory has the image in its area.
abbrev pub Holds : FirmwareBundle → ImageKind → FlatMemory → Type 0
Holds bundle kind m =
    window m (host_area kind) (length (bytes_of bundle kind)) ≡ bytes_of bundle kind

module _ {E : Type 0} (sha256 : List ℕ → List ℕ) (bundle : FirmwareBundle) where
  download_image_lem :
      (kind : ImageKind) (m : FlatMemory)
      → Found kind (image bundle kind)
      → length (bytes_of bundle kind) ≤ area_len kind
      → download_image (rpu_port (flat E)) sha256 bundle kind m
        ≡ (placed kind (bytes_of bundle kind) m, ok tt)
  unfolding download_image
  download_image_lem kind m (bytes, found) h =
      let same : bytes_of bundle kind ≡ bytes = ap image_bytes found in
      let short : length bytes ≤ area_len kind = omega (arith, h, ap length same) in
      let written =
        write_lem {E = E} (destination kind).0 (destination kind).1 (host_area kind) bytes m
          (area_accepted {E = E} kind (length bytes) short)
          (area-Contiguous kind (length bytes) short) in
      rw (found, written) refl

  download_images_lem :
      (m : FlatMemory)
      → ((kind : ImageKind) → Found kind (image bundle kind))
      → AllShort bundle
      → download_images (rpu_port (flat E)) sha256 bundle m ≡ (downloaded bundle m, ok tt)
  unfolding download_images
  download_images_lem m found h =
      rw
        (
          download_image_lem ImageKind.umac_primary m (found ImageKind.umac_primary)
              (h ImageKind.umac_primary),
          download_image_lem ImageKind.umac_secondary _ (found ImageKind.umac_secondary)
              (h ImageKind.umac_secondary),
          download_image_lem ImageKind.lmac_primary _ (found ImageKind.lmac_primary)
              (h ImageKind.lmac_primary),
          download_image_lem ImageKind.lmac_secondary _ (found ImageKind.lmac_secondary)
              (h ImageKind.lmac_secondary),
        )
        refl

placed-Holds :
    (bundle : FirmwareBundle) (kind : ImageKind) (m : FlatMemory)
    → Holds bundle kind (placed kind (bytes_of bundle kind) m)
placed-Holds bundle kind m = window-patch m (host_area kind) (bytes_of bundle kind) _

abbrev Apart : ImageKind → ImageKind → Type 0
Apart kind other =
    (host_area kind + area_len kind ≤ host_area other)
    ⊎ (host_area other + area_len other ≤ host_area kind)

area_len_words : (kind : ImageKind) (len : ℕ) → len ≤ area_len kind → padded_len len ≤ area_len kind
unfolding area_len
area_len_words ImageKind.umac_primary len h = omega arith
area_len_words ImageKind.umac_secondary len h = omega arith
area_len_words ImageKind.lmac_primary len h = omega arith
area_len_words ImageKind.lmac_secondary len h = omega arith

placed-Holds_other :
    (bundle : FirmwareBundle) (kind other : ImageKind) (m : FlatMemory)
    → AllShort bundle
    → Apart kind other
    → Holds bundle kind m
    → Holds bundle kind (placed other (bytes_of bundle other) m)
placed-Holds_other bundle kind other m short apart q =
    let size = padded-length (bytes_of bundle other) in
    let fits = area_len_words other (length (bytes_of bundle other)) (short other) in
    let room = short kind in
    window-patch_other m (host_area other) (padded (bytes_of bundle other))
      (length (bytes_of bundle kind)) (host_area kind)
      (elim apart [ inl a ↦ inl (omega arith) | inr a ↦ inr (omega arith) ])
    ∙ q

downloaded-Holds :
    (bundle : FirmwareBundle) (m : FlatMemory)
    → AllShort bundle
    → (kind : ImageKind) → Holds bundle kind (downloaded bundle m)
unfolding area_len host_area
downloaded-Holds bundle m short ImageKind.umac_primary =
    placed-Holds_other bundle ImageKind.umac_primary ImageKind.lmac_secondary _ short
      (inr (omega arith))
      (placed-Holds_other bundle ImageKind.umac_primary ImageKind.lmac_primary _ short
        (inr (omega arith))
        (placed-Holds_other bundle ImageKind.umac_primary ImageKind.umac_secondary _ short
          (inr (omega arith)) (placed-Holds bundle ImageKind.umac_primary _)))
downloaded-Holds bundle m short ImageKind.umac_secondary =
    placed-Holds_other bundle ImageKind.umac_secondary ImageKind.lmac_secondary _ short
      (inr (omega arith))
      (placed-Holds_other bundle ImageKind.umac_secondary ImageKind.lmac_primary _ short
        (inr (omega arith)) (placed-Holds bundle ImageKind.umac_secondary _))
downloaded-Holds bundle m short ImageKind.lmac_primary =
    placed-Holds_other bundle ImageKind.lmac_primary ImageKind.lmac_secondary _ short
      (inr (omega arith)) (placed-Holds bundle ImageKind.lmac_primary _)
downloaded-Holds bundle m short ImageKind.lmac_secondary =
    placed-Holds bundle ImageKind.lmac_secondary _

-- On a bus that is a flat memory: for an accepted bundle each of whose images has room between its
-- destination and the next one, or the end of the region, `download_images` over the operations of
-- `Rpu` succeeds, and afterwards the host window holds each of the four images, whole, at the
-- offset that its destination is translated to.
pub download_images-Holds :
    {E : Type 0} (sha256 : List ℕ → List ℕ) (bytes : List ℕ) (bundle : FirmwareBundle)
    (m : FlatMemory)
    → parse_bundle bytes ≡ ok bundle
    → AllShort bundle
    → (m' : FlatMemory) × (download_images (rpu_port (flat E)) sha256 bundle m ≡ (m', ok tt))
      × ((kind : ImageKind)
          → (host_offset (destination kind).0 (destination kind).1 ≡ ok (host_area kind))
            × Holds bundle kind m')
download_images-Holds {E} sha256 bytes bundle m parsed short =
    let images = (Post-ok (IsBundle bytes) _ bundle (parse_bundle-IsBundle bytes) parsed).images in
    (
      downloaded bundle m,
      download_images_lem {E = E} sha256 bundle m images short,
      λ kind. (destination-host_offset kind, downloaded-Holds bundle m short kind),
    )
