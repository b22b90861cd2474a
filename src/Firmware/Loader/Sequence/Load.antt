-- ===== src/Firmware/Loader/Sequence/Load.antt =====
-- firmware.rs: the order in which the loader changes the RPU.
use Prim.Native.Nat.{ℕ}
use embassy_zephyr_n_rf.Base.{
  ◌≡◌, ◌⊎◌, inl, inr, refl, List, [], ◌∷◌, ◌++◌, Outcome, ok, err, panic,
}
use embassy_zephyr_n_rf.Base.Actions.{map_error, ◌>>◌, pure}
use embassy_zephyr_n_rf.Base.Post.{Post-ok}
use embassy_zephyr_n_rf.Memory.Address.{Processor, RpuError}
use embassy_zephyr_n_rf.Firmware.Bundle.{
  FirmwareError, ImageKind, FirmwareBundle, image, parse_bundle,
}
use embassy_zephyr_n_rf.Firmware.Bundle.Images.{Found}
use embassy_zephyr_n_rf.Firmware.Bundle.Parse.{IsBundle, parse_bundle-IsBundle}
use embassy_zephyr_n_rf.Firmware.Trust.{TrustPolicy, verify_hash}
use embassy_zephyr_n_rf.Firmware.Loader.{LoadError, FirmwareReport, load, load_rest}
use embassy_zephyr_n_rf.Firmware.Loader.Sequence.{
  Operation, Trace, load_operations, Started, Performed, Performs, >>=-Performs, pure-Performs,
}
use embassy_zephyr_n_rf.Firmware.Loader.Sequence.Steps.{
  tracing, boot_processors-Performs, reset_processors-Performs, download_images-Performs,
}

module _ (E : Type 0) (answer : Operation → Trace → Outcome (RpuError E) (Unit {0}))
    (value_at : Processor → ℕ → Trace → Outcome (RpuError E) ℕ) (sha256 : List ℕ → List ℕ) where
  -- The outcome of loading.
  unfoldable pub Loaded :
      FirmwareBundle → TrustPolicy → Trace → Trace × Outcome (LoadError E) FirmwareReport → Type 0
  Loaded bundle trust s (s', ok report) =
      (trust bundle ≡ ok tt)
      × (verify_hash sha256 bundle ≡ ok tt)
      × (s'.log ≡ s.log ++ load_operations bundle)
  Loaded bundle trust s (s', err e) =
      (s'.log ≡ s.log)
      ⊎ ((trust bundle ≡ ok tt)
          × (verify_hash sha256 bundle ≡ ok tt)
          × Started (load_operations bundle) s s')
  Loaded bundle trust s (s', panic) =
      (s'.log ≡ s.log)
      ⊎ ((trust bundle ≡ ok tt)
          × (verify_hash sha256 bundle ≡ ok tt)
          × Started (load_operations bundle) s s')

  verified-Loaded :
      (bundle : FirmwareBundle) (trust : TrustPolicy) (s : Trace)
      (r : Trace × Outcome (LoadError E) FirmwareReport)
      → trust bundle ≡ ok tt
      → verify_hash sha256 bundle ≡ ok tt
      → Performed (load_operations bundle) s r
      → Loaded bundle trust s r
  unfolding Loaded
  verified-Loaded bundle trust s (s', ok report) t h p = (t, h, p)
  verified-Loaded bundle trust s (s', err e) t h p = inr (t, h, p)
  verified-Loaded bundle trust s (s', panic) t h p = inr (t, h, p)

  load_rest-Performs :
      (bundle : FirmwareBundle)
      → ((kind : ImageKind) → Found kind (image bundle kind))
      → Performs
          (load_operations bundle)
          (load_rest (tracing E answer value_at sha256) sha256 bundle)
  unfolding load_rest
  load_rest-Performs bundle images =
      >>=-Performs
        ((Operation.reset_operation Processor.lmac ∷ [])
          ++ (Operation.reset_operation Processor.umac ∷ []))
        _ _ _ (reset_processors-Performs E answer value_at sha256)
        λ _.
          >>=-Performs _ _ _ _ (download_images-Performs E answer value_at sha256 bundle images)
            λ _.
              >>=-Performs _ [] _ _ (boot_processors-Performs E answer value_at sha256)
                λ _. pure-Performs _ _ _

  load_verified :
      (bundle : FirmwareBundle) (s : Trace)
      → ((kind : ImageKind) → Found kind (image bundle kind))
      → Performed
          (load_operations bundle)
          s
          (load_rest (tracing E answer value_at sha256) sha256 bundle s)
  unfolding Performs
  load_verified bundle s images = load_rest-Performs bundle images s

  failed-Loaded :
      (bundle : FirmwareBundle) (trust : TrustPolicy) (s : Trace) (e : LoadError E)
      → Loaded bundle trust s (s, err e)
  unfolding Loaded
  failed-Loaded bundle trust s e = inl refl

  panic-Loaded :
      (bundle : FirmwareBundle) (trust : TrustPolicy) (s : Trace) → Loaded bundle trust s (s, panic)
  unfolding Loaded
  panic-Loaded bundle trust s = inl refl

  checked-Loaded :
      (bundle : FirmwareBundle) (trust : TrustPolicy) (s : Trace)
      (a b : Outcome FirmwareError (Unit {0}))
      → trust bundle ≡ a
      → verify_hash sha256 bundle ≡ b
      → ((kind : ImageKind) → Found kind (image bundle kind))
      → Loaded bundle trust s (
          (map_error LoadError.firmware (pure a)
              >> (map_error LoadError.firmware (pure b)
                  >> load_rest (tracing E answer value_at sha256) sha256 bundle))
            s)
  checked-Loaded bundle trust s (ok x) (ok y) t h images =
      verified-Loaded bundle trust s (load_rest (tracing E answer value_at sha256) sha256 bundle s)
        t h (load_verified bundle s images)
  checked-Loaded bundle trust s (ok x) (err e) t h images = failed-Loaded bundle trust s _
  checked-Loaded bundle trust s (ok x) panic t h images = panic-Loaded bundle trust s
  checked-Loaded bundle trust s (err e) b t h images = failed-Loaded bundle trust s _
  checked-Loaded bundle trust s panic b t h images = panic-Loaded bundle trust s

  -- Whatever the RPU answers: loading an accepted bundle that succeeds was authorized by the policy,
  -- matched the digest in its header, and changed the RPU by this sequence and nothing else: reset of
  -- both processors, the four images to their places, then for each processor the cleared boot
  -- signature, the sleep register, the boot vectors and the run register. A load that fails changed
  -- nothing, or was authorized, matched the digest, and carried out or tried the first operations of
  -- the sequence.
  pub load-Loaded :
      (bytes : List ℕ) (bundle : FirmwareBundle) (trust : TrustPolicy) (s : Trace)
      → parse_bundle bytes ≡ ok bundle
      → Loaded bundle trust s (load (tracing E answer value_at sha256) sha256 bundle trust s)
  unfolding load
  load-Loaded bytes bundle trust s parsed =
      checked-Loaded bundle trust s (trust bundle) (verify_hash sha256 bundle) refl refl
        (Post-ok (IsBundle bytes) _ bundle (parse_bundle-IsBundle bytes) parsed).images
