-- ===== src/Firmware/Bundle/Parse.antt =====
-- firmware.rs: the parser never panics, and what it accepts.
use Prim.Native.Nat.{ℕ, ◌≤◌}
use embassy_zephyr_n_rf.Base.{
  refl, ltb, Outcome-cases, subst, ◌≡◌, ◌⊎◌, inl, inr, List, Bool, true, false, not, ◌||◌, ◌==◌,
  bit_set, arith, length, drop, read_u32_lem, slice_lem, u32_at, length-take, length-drop,
}
use embassy_zephyr_n_rf.Base.Post.{reject_if_then-Post, Post, Post-ok, Post-bind}
use embassy_zephyr_n_rf.Firmware.Bundle.{
  parse_bundle, patch_signature, patch_image_count, FirmwareError, ImageKind, kind_value,
  FirmwareHeader, FirmwareBundle, pinned_patch_version, feature_system_mode,
  parse_compatible_header, exact_payload_end, validate_images, image,
}
use embassy_zephyr_n_rf.Firmware.Bundle.Images.{Found, IsFound, validate_rounds-IsFound}
use embassy_zephyr_n_rf.Base.Post.{Post-map, reject_if-Post}

-- What the parser guarantees of the header.
pub record IsHeader (header : FirmwareHeader) : Type 0 where
  pub version : header.version ≡ pinned_patch_version
  pub features : header.feature_flags ≡ feature_system_mode
  pub hash_len : length header.hash ≡ 32

not_equal : (a b : ℕ) → not (a == b) ≡ false → a ≡ b
not_equal a b h = ground arith

parse_compatible_header-Post :
    (bytes : List ℕ) → 52 ≤ length bytes → Post IsHeader (parse_compatible_header bytes)
unfolding parse_compatible_header
parse_compatible_header-Post bytes long =
    rw
      (
        read_u32_lem {E = FirmwareError} bytes 0 (omega arith),
        read_u32_lem {E = FirmwareError} bytes 4 (omega arith),
        read_u32_lem {E = FirmwareError} bytes 8 (omega arith),
        read_u32_lem {E = FirmwareError} bytes 12 (omega arith),
        read_u32_lem {E = FirmwareError} bytes 16 (omega arith),
        slice_lem {E = FirmwareError} bytes 20 52 (omega arith) long,
      )
      (reject_if_then-Post (not (u32_at bytes 0 == patch_signature)) _ _ IsHeader λ _.
        reject_if_then-Post (not (u32_at bytes 4 == patch_image_count)) _ _ IsHeader λ _.
          reject_if_then-Post (not (u32_at bytes 8 == pinned_patch_version)) _ _ IsHeader λ version.
            reject_if_then-Post (not (u32_at bytes 12 == feature_system_mode)) _ _ IsHeader
              λ features. record {
                version = not_equal _ _ version;
                features = not_equal _ _ features;
                hash_len =
                    omega (arith, long, length-take 32 (drop 20 bytes), length-drop 20 bytes);
              })

exact_payload_end-Post :
    (bytes : List ℕ) (payload_len : ℕ)
    → Post (λ end. end ≡ length bytes) (exact_payload_end bytes payload_len)
unfolding exact_payload_end
exact_payload_end-Post bytes payload_len = ground arith

all_bits : (wanted : ImageKind) → bit_set 15 (kind_value wanted) ≡ true
unfolding kind_value
all_bits wanted = ground arith

no_bits : (wanted : ImageKind) → bit_set 0 (kind_value wanted) ≡ true → ⊥
unfolding kind_value
no_bits wanted h = ground arith

both_clear : (a b : Bool) → (a || b) ≡ false → a ≡ false
both_clear a b h = ground arith

validate_images-Found :
    (bundle : FirmwareBundle) (wanted : ImageKind)
    → bundle.payload_end ≤ length bundle.bytes
    → Post (λ _. Found wanted (image bundle wanted)) (validate_images bundle)
unfolding validate_images image
validate_images-Found bundle wanted room =
    Post-bind (IsFound bundle wanted 4 52 0) (λ _. Found wanted (image bundle wanted)) _ _
      (validate_rounds-IsFound bundle wanted 4 52 0 room (omega arith))
      λ (offset, seen) found.
        Post-map _ (λ _. Found wanted (image bundle wanted)) _
          (λ _ full. found_at seen (not_equal _ _ (both_clear _ _ full)) found) (reject_if-Post _ _)
  where
    found_at :
        (seen : ℕ)
        → seen ≡ 15
        → (bit_set seen (kind_value wanted) ≡ true
            → (bit_set 0 (kind_value wanted) ≡ true) ⊎ Found wanted (image bundle wanted))
        → Found wanted (image bundle wanted)
    found_at seen e f = elim (f (rw e (all_bits wanted))) [
      | inl h ↦ absurd (no_bits wanted h)
      | inr h ↦ h
    ]

validate_images-all :
    (bundle : FirmwareBundle)
    → bundle.payload_end ≤ length bundle.bytes
    → Post (λ _. (wanted : ImageKind) → Found wanted (image bundle wanted)) (validate_images bundle)
validate_images-all bundle room = elim (Outcome-cases (validate_images bundle)) [
  | inl (x, e) ↦ rw e (λ wanted.
      Post-ok (λ _. Found wanted (image bundle wanted)) _ x
        (validate_images-Found bundle wanted room) e)
  | inr (inl (x, e)) ↦ rw e tt
  | inr (inr e) ↦ absurd (
      subst (Post (λ _. Found ImageKind.umac_primary (image bundle ImageKind.umac_primary))) e
        (validate_images-Found bundle ImageKind.umac_primary room))
]

-- What the parser guarantees of a bundle.
pub record IsBundle (bytes : List ℕ) (bundle : FirmwareBundle) : Type 0 where
  pub all_bytes : bundle.bytes ≡ bytes
  pub whole : bundle.payload_end ≡ length bytes
  pub long : 52 ≤ length bytes
  pub header : IsHeader bundle.header
  pub images : (wanted : ImageKind) → Found wanted (image bundle wanted)

-- Parsing a firmware file never panics. An accepted bundle is the whole file, its payload ends where
-- the file does, its header has the pinned version, the system-mode feature and a digest of 32 bytes,
-- and looking up each of the four kinds of image finds an image of that kind.
pub parse_bundle-IsBundle : (bytes : List ℕ) → Post (IsBundle bytes) (parse_bundle bytes)
unfolding parse_bundle
parse_bundle-IsBundle bytes =
    reject_if_then-Post (ltb (length bytes) 52) _ _ (IsBundle bytes) λ enough.
      let long : 52 ≤ length bytes = ground arith in
      Post-bind IsHeader (IsBundle bytes) _ _ (parse_compatible_header-Post bytes long) λ header h.
        Post-bind (λ end. end ≡ length bytes) (IsBundle bytes) _ _
          (exact_payload_end-Post bytes header.payload_len)
          λ payload_end e.
            let bundle : FirmwareBundle = record {
              bytes = bytes;
              header = header;
              payload_end = payload_end;
            } in
            Post-bind (λ _. (wanted : ImageKind) → Found wanted (image bundle wanted))
              (IsBundle bytes) _ _ (validate_images-all bundle (omega arith))
              λ _ images. record {
                all_bytes = refl;
                whole = e;
                long = long;
                header = h;
                images = images;
              }
