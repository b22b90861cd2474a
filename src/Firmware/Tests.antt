-- ===== src/Firmware/Tests.antt =====
-- A small firmware bundle, parsed and loaded.
use embassy_zephyr_n_rf.Base.{arith}
use embassy_zephyr_n_rf.Memory.Address.{host_offset}
use embassy_zephyr_n_rf.Memory.Rpu.Flat.{FlatMemory, flat}
use embassy_zephyr_n_rf.Firmware.Bundle.{ImageKind, image, image_rounds, image_at}
use embassy_zephyr_n_rf.Firmware.Loader.{download_images, destination}
use embassy_zephyr_n_rf.Firmware.Loader.OverBus.{
  rpu_port, area_len, host_area, AllShort, Holds, download_images-Holds,
}
use Prim.Native.Nat.{ℕ, ◌+◌}
use embassy_zephyr_n_rf.Base.{
  ◌≡◌, refl, List, [], ◌∷◌, ◌++◌, Outcome, ok, replicate, u32_bytes, read_u32, index,
}
use embassy_zephyr_n_rf.Base.Post.{Post}
use embassy_zephyr_n_rf.Base.Bytes.{slice}
use embassy_zephyr_n_rf.Memory.Address.{Processor, RpuError}
use embassy_zephyr_n_rf.Firmware.Bundle.{
  FirmwareBundle, parse_bundle, parse_compatible_header, exact_payload_end, image_extent, from_u32,
  see_image, kind_value, validate_rounds, validate_images,
}
use embassy_zephyr_n_rf.Firmware.Bundle.Parse.{IsBundle, parse_bundle-IsBundle}
use embassy_zephyr_n_rf.Firmware.Trust.{TrustPolicy}
use embassy_zephyr_n_rf.Firmware.Loader.{load}
use embassy_zephyr_n_rf.Firmware.Loader.Sequence.{Operation, Trace}
use embassy_zephyr_n_rf.Firmware.Loader.Sequence.Load.{Loaded, load-Loaded}
use embassy_zephyr_n_rf.Firmware.Loader.Sequence.Steps.{tracing}

abbrev one_byte_image : ℕ → List ℕ
one_byte_image kind = u32_bytes kind ++ (u32_bytes 1 ++ ((kind + 7) ∷ []))

abbrev file : List ℕ
file =
    u32_bytes 0xdead1eaf
    ++ (u32_bytes 4
        ++ (u32_bytes 0x01020e09
            ++ (u32_bytes 1
                ++ (u32_bytes 36
                    ++ (replicate 32 0
                        ++ (one_byte_image 0
                            ++ (one_byte_image 1 ++ (one_byte_image 2 ++ one_byte_image 3))))))))

abbrev bundle : FirmwareBundle
bundle = record {
  bytes = file;
  header = record {
    version = 0x01020e09;
    feature_flags = 1;
    payload_len = 36;
    hash = replicate 32 0;
  };
  payload_end = 88;
}

file_parsed : parse_bundle file ≡ ok bundle
unfolding parse_bundle parse_compatible_header exact_payload_end image_extent from_u32 see_image
    kind_value validate_rounds validate_images read_u32 index slice
file_parsed = refl

parse_bundle-IsBundle_example : Post (IsBundle file) (parse_bundle file)
parse_bundle-IsBundle_example = parse_bundle-IsBundle file

abbrev accept : Operation → Trace → Outcome (RpuError ℕ) (Unit {0})
accept o s = ok tt

abbrev booted : Processor → ℕ → Trace → Outcome (RpuError ℕ) ℕ
booted processor address s = ok 0x5a5a5a5a

abbrev zero_digest : List ℕ → List ℕ
zero_digest bytes = replicate 32 0

abbrev trusting : TrustPolicy
trusting b = ok tt

abbrev fresh : Trace
fresh = record { log = []; delays = 0 }

load-Loaded_example :
    Loaded ℕ accept booted zero_digest bundle trusting fresh
      (load (tracing ℕ accept booted zero_digest) zero_digest bundle trusting fresh)
load-Loaded_example = load-Loaded ℕ accept booted zero_digest file bundle trusting fresh file_parsed

file_short : AllShort bundle
unfolding area_len image image_rounds image_at image_extent from_u32 kind_value read_u32 index slice
file_short ImageKind.umac_primary = omega arith
file_short ImageKind.umac_secondary = omega arith
file_short ImageKind.lmac_primary = omega arith
file_short ImageKind.lmac_secondary = omega arith

abbrev blank : FlatMemory
blank i = 0

download_images-Holds_example :
    (m : FlatMemory) × (download_images (rpu_port (flat ℕ)) zero_digest bundle blank ≡ (m, ok tt))
    × ((kind : ImageKind)
        → (host_offset (destination kind).0 (destination kind).1 ≡ ok (host_area kind))
          × Holds bundle kind m)
download_images-Holds_example =
    download_images-Holds {E = ℕ} zero_digest file bundle blank file_parsed file_short
