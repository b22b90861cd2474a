-- ===== src/Firmware/Loader/Sequence/Steps.antt =====
-- firmware.rs: the operations of each step of the loader.
use Prim.Native.Nat.{◌+◌, ℕ, zero, suc}
use embassy_zephyr_n_rf.Base.{
  refl, sym, List, [], ◌∷◌, ◌++◌, append-nil, ◌==◌, if◌then◌else◌, Outcome, ok, err, panic,
}
use embassy_zephyr_n_rf.Base.Actions.{Action}
use embassy_zephyr_n_rf.Memory.Address.{Processor, RpuError}
use embassy_zephyr_n_rf.Firmware.Bundle.{ImageKind, FirmwareBundle, image}
use embassy_zephyr_n_rf.Firmware.Bundle.Images.{Found}
use embassy_zephyr_n_rf.Firmware.Loader.{
  BootConfig, boot_config, boot_signature, boot_vector_values, RpuPort, write_vectors, program_boot,
  poll_signature, wait_for_boot_signature, boot_processor, reset_processors, boot_processors,
  download_image, download_images,
}
use embassy_zephyr_n_rf.Firmware.Loader.Sequence.{
  Operation, Trace, vector_operations, boot_operations, download_operations, Performed, Performs,
  >>=-Performs, map_error-Performs, pure-Performs, if_Performed, same_log, nothing,
}

module _ (E : Type 0) (answer : Operation → Trace → Outcome (RpuError E) (Unit {0}))
    (value_at : Processor → ℕ → Trace → Outcome (RpuError E) ℕ) (sha256 : List ℕ → List ℕ) where
  abbrev record_operation : Operation → Action Trace (RpuError E) (Unit {0})
  record_operation o s = (record { log = s.log ++ (o ∷ []); delays = s.delays }, answer o s)

  -- An RPU that answers each access as it likes, and keeps the operations that change it.
  abbrev pub tracing : RpuPort
  tracing = record {
    Rpu = Trace;
    BusError = E;
    reset_processor = λ processor. record_operation (Operation.reset_operation processor);
    write = λ processor address bytes.
        record_operation (Operation.write_operation processor address bytes);
    write_u32 = λ processor address value.
        record_operation (Operation.word_operation processor address value);
    write_register = λ address value. record_operation (Operation.register_operation address value);
    read_u32 = λ processor address s. (s, value_at processor address s);
    delay_ms = λ ms s. record { log = s.log; delays = s.delays + 1 };
  }

  record_operation-Performs : (o : Operation) → Performs (o ∷ []) (record_operation o)
  unfolding Performs
  record_operation-Performs o s = recorded (answer o s)
    where
      recorded :
          (r : Outcome (RpuError E) (Unit {0}))
          → Performed (o ∷ []) s (record { log = s.log ++ (o ∷ []); delays = s.delays }, r)
      recorded (ok a) = refl
      recorded (err e) = (o ∷ [], [], refl, refl)
      recorded panic = (o ∷ [], [], refl, refl)

  write_vectors-Performs :
      (addresses values : List ℕ)
      → Performs
          (vector_operations addresses values)
          (write_vectors tracing sha256 addresses values)
  unfolding write_vectors
  write_vectors-Performs [] values = pure-Performs _ _ tt
  write_vectors-Performs (address ∷ addresses) [] = pure-Performs _ _ tt
  write_vectors-Performs (address ∷ addresses) (value ∷ values) =
      >>=-Performs (Operation.register_operation address value ∷ []) _ _ _
        (record_operation-Performs (Operation.register_operation address value))
        λ _. write_vectors-Performs addresses values

  program_boot-Performs :
      (processor : Processor) (config : BootConfig)
      → Performs (boot_operations processor config) (program_boot tracing sha256 processor config)
  unfolding program_boot
  program_boot-Performs processor config =
      >>=-Performs (Operation.word_operation processor config.signature_address 0 ∷ []) _ _ _
        (record_operation-Performs _)
        λ _.
          >>=-Performs (Operation.register_operation config.sleep_control config.patch_offset ∷ [])
            _ _ _ (record_operation-Performs _)
            λ _.
              >>=-Performs (vector_operations config.vectors boot_vector_values) _ _ _
                (write_vectors-Performs config.vectors boot_vector_values)
                λ _. record_operation-Performs _

  read-Performs :
      (processor : Processor) (address : ℕ) → Performs [] (λ s. (s, value_at processor address s))
  unfolding Performs
  read-Performs processor address s = unchanged (value_at processor address s)
    where
      unchanged : (r : Outcome (RpuError E) ℕ) → Performed [] s (s, r)
      unchanged (ok value) = sym (append-nil s.log)
      unchanged (err e) = nothing [] s s refl
      unchanged panic = nothing [] s s refl

  -- The rest of a round of polling.
  abbrev again : ℕ → Processor → ℕ → Action Trace (RpuError E) (Unit {0})
  again n processor address s =
      poll_signature tracing sha256 n processor address
        record { log = s.log; delays = s.delays + 1 }

  abbrev after : ℕ → Processor → ℕ → ℕ → Action Trace (RpuError E) (Unit {0})
  after n processor address value s =
      if value == boot_signature then (s, ok tt) else again n processor address s

  -- Polling changes nothing, however often it reads.
  poll_signature-Performs :
      (n : ℕ) (processor : Processor) (address : ℕ)
      → Performs [] (poll_signature tracing sha256 n processor address)
  unfolding poll_signature Performs
  poll_signature-Performs zero processor address s = nothing [] s s refl
  poll_signature-Performs (suc n) processor address s =
      >>=-Performs [] [] (tracing.read_u32 processor address) (after n processor address)
        (read-Performs processor address)
        (λ value s'.
          if_Performed (value == boot_signature) s' (s', ok tt) (again n processor address s')
            (sym (append-nil s'.log))
            (same_log s' (s'.delays + 1) (again n processor address s') (
              poll_signature-Performs n processor address
                record { log = s'.log; delays = s'.delays + 1 })))
        s

  boot_processor-Performs :
      (processor : Processor)
      → Performs
          (boot_operations processor (boot_config processor) ++ [])
          (boot_processor tracing sha256 processor)
  unfolding boot_processor wait_for_boot_signature
  boot_processor-Performs processor =
      >>=-Performs _ _ _ _ (program_boot-Performs processor (boot_config processor))
        λ _. poll_signature-Performs 100 processor (boot_config processor).signature_address

  pub boot_processors-Performs :
      Performs
        ((boot_operations Processor.lmac (boot_config Processor.lmac) ++ [])
          ++ (boot_operations Processor.umac (boot_config Processor.umac) ++ []))
        (boot_processors tracing sha256)
  unfolding boot_processors
  boot_processors-Performs =
      >>=-Performs _ _ _ _ (map_error-Performs _ _ _ (boot_processor-Performs Processor.lmac))
        λ _. map_error-Performs _ _ _ (boot_processor-Performs Processor.umac)

  pub reset_processors-Performs :
      Performs
        ((Operation.reset_operation Processor.lmac ∷ [])
          ++ (Operation.reset_operation Processor.umac ∷ []))
        (reset_processors tracing sha256)
  unfolding reset_processors
  reset_processors-Performs =
      >>=-Performs (Operation.reset_operation Processor.lmac ∷ []) _ _ _
        (map_error-Performs _ _ _ (record_operation-Performs _))
        λ _. map_error-Performs _ _ _ (record_operation-Performs _)

  download_image-Performs :
      (bundle : FirmwareBundle) (kind : ImageKind)
      → Found kind (image bundle kind)
      → Performs (download_operations bundle kind) (download_image tracing sha256 bundle kind)
  unfolding download_image
  download_image-Performs bundle kind (bytes, e) =
      rw e (map_error-Performs _ _ _ (record_operation-Performs _))

  pub download_images-Performs :
      (bundle : FirmwareBundle)
      → ((kind : ImageKind) → Found kind (image bundle kind))
      → Performs
          (download_operations bundle ImageKind.umac_primary
            ++ (download_operations bundle ImageKind.umac_secondary
                ++ (download_operations bundle ImageKind.lmac_primary
                    ++ download_operations bundle ImageKind.lmac_secondary)))
          (download_images tracing sha256 bundle)
  unfolding download_images
  download_images-Performs bundle images =
      >>=-Performs (download_operations bundle ImageKind.umac_primary) _ _ _
        (download_image-Performs bundle _ (images _))
        λ _.
          >>=-Performs (download_operations bundle ImageKind.umac_secondary) _ _ _
            (download_image-Performs bundle _ (images _))
            λ _.
              >>=-Performs (download_operations bundle ImageKind.lmac_primary) _ _ _
                (download_image-Performs bundle _ (images _))
                λ _. download_image-Performs bundle _ (images _)
