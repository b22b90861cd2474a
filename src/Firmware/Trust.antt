-- ===== src/Firmware/Trust.antt =====
-- firmware.rs: the trust policies, over the SHA-256 of the `sha2` crate.
use Prim.Native.Nat.{ℕ}
use embassy_zephyr_n_rf.Base.{
  List, ◌∷◌, Bool, true, not, ◌&&◌, ◌==◌, Outcome, reject_if, bytes_eq, ◌>>=◌,
}
use embassy_zephyr_n_rf.Base.Bytes.{slice}
use embassy_zephyr_n_rf.Firmware.Bundle.{FirmwareError, FirmwareBundle, patch_header_len}

-- `FirmwareTrustPolicy::verify`
abbrev pub TrustPolicy : Type 0
TrustPolicy = FirmwareBundle → Outcome FirmwareError (Unit {0})

-- The bytes of two arrays that stand in the same place are equal: no bit of `difference` is set.
unfoldable pub same_bytes : List ℕ → List ℕ → Bool
same_bytes (a ∷ actual) (e ∷ expected) = (a == e) && same_bytes actual expected
same_bytes _ _ = true

module _ (sha256 : List ℕ → List ℕ) where
  unfoldable pub full_sha256 : FirmwareBundle → List ℕ
  full_sha256 bundle = sha256 bundle.bytes

  -- `PinnedFirmwareSha256`
  unfoldable pub verify_pinned : List ℕ → TrustPolicy
  verify_pinned expected bundle =
      reject_if (not (same_bytes (full_sha256 bundle) expected)) FirmwareError.untrusted_image

  unfoldable pub verify_hash : FirmwareBundle → Outcome FirmwareError (Unit {0})
  verify_hash bundle = do
    payload ← slice bundle.bytes patch_header_len bundle.payload_end
    reject_if (not (bytes_eq (sha256 payload) bundle.header.hash)) FirmwareError.hash_mismatch
