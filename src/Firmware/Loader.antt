-- ===== src/Firmware/Loader.antt =====
-- firmware.rs: the loader, over the operations of the RPU.
pub mod Sequence
pub mod OverBus
use Prim.Native.Nat.{ℕ, zero, suc, ◌-◌}
use embassy_zephyr_n_rf.Base.{List, [], ◌∷◌, ◌==◌, if◌then◌else◌, Outcome, ok, err, panic}
use embassy_zephyr_n_rf.Base.Actions.{mapped, map_error, Action, ◌>>=◌, ◌>>◌, pure}
use embassy_zephyr_n_rf.Memory.Address.{Processor, RpuError}
use embassy_zephyr_n_rf.Firmware.Bundle.{FirmwareError, ImageKind, FirmwareBundle, image}
use embassy_zephyr_n_rf.Firmware.Trust.{TrustPolicy, verify_hash}

abbrev pub rpu_mem_lmac_patch_bin : ℕ
rpu_mem_lmac_patch_bin = 0x80043a80

abbrev pub rpu_mem_lmac_patch_bimg : ℕ
rpu_mem_lmac_patch_bimg = 0x8004bbc0

abbrev pub rpu_mem_umac_patch_bin : ℕ
rpu_mem_umac_patch_bin = 0x8008c000

abbrev pub rpu_mem_umac_patch_bimg : ℕ
rpu_mem_umac_patch_bimg = 0x8009b800

abbrev pub rpu_mem_lmac_boot_sig : ℕ
rpu_mem_lmac_boot_sig = 0xb7000d50

abbrev pub rpu_mem_umac_boot_sig : ℕ
rpu_mem_umac_boot_sig = 0xb0000000

abbrev pub boot_signature : ℕ
boot_signature = 0x5a5a5a5a

abbrev pub rpu_reg_ucc_sleep_ctrl_data_0 : ℕ
rpu_reg_ucc_sleep_ctrl_data_0 = 0xa4002c2c

abbrev pub rpu_reg_ucc_sleep_ctrl_data_1 : ℕ
rpu_reg_ucc_sleep_ctrl_data_1 = 0xa4002c30

abbrev pub rpu_reg_mips_mcu_control : ℕ
rpu_reg_mips_mcu_control = 0xa4000000

abbrev pub rpu_reg_mips_mcu2_control : ℕ
rpu_reg_mips_mcu2_control = 0xa4000100

abbrev pub lmac_boot_vector_registers : List ℕ
lmac_boot_vector_registers = 0xa4000050 ∷ 0xa4000054 ∷ 0xa4000058 ∷ 0xa400005c ∷ []

abbrev pub umac_boot_vector_registers : List ℕ
umac_boot_vector_registers = 0xa4000150 ∷ 0xa4000154 ∷ 0xa4000158 ∷ 0xa400015c ∷ []

abbrev pub boot_vector_values : List ℕ
boot_vector_values = 0x3c1a8000 ∷ 0x275a0000 ∷ 0x03400008 ∷ 0 ∷ []

pub data LoadStage : Type 0 where
  reset : Processor → LoadStage
  download : ImageKind → LoadStage
  boot : Processor → LoadStage

pub data LoadError (E : Type 0) : Type 0 where
  firmware : FirmwareError → LoadError E
  rpu : LoadStage → RpuError E → LoadError E
  missing_image : ImageKind → LoadError E

pub record FirmwareReport : Type 0 where
  pub version : ℕ
  pub feature_flags : ℕ

pub record BootConfig : Type 0 where
  pub signature_address : ℕ
  pub sleep_control : ℕ
  pub patch_offset : ℕ
  pub run_register : ℕ
  pub vectors : List ℕ

unfoldable pub boot_config : Processor → BootConfig
boot_config Processor.lmac = record {
  signature_address = rpu_mem_lmac_boot_sig;
  sleep_control = rpu_reg_ucc_sleep_ctrl_data_0;
  patch_offset = rpu_mem_lmac_patch_bimg - 0x80040000;
  run_register = rpu_reg_mips_mcu_control;
  vectors = lmac_boot_vector_registers;
}
boot_config Processor.umac = record {
  signature_address = rpu_mem_umac_boot_sig;
  sleep_control = rpu_reg_ucc_sleep_ctrl_data_1;
  patch_offset = rpu_mem_umac_patch_bimg - 0x80080000;
  run_register = rpu_reg_mips_mcu2_control;
  vectors = umac_boot_vector_registers;
}

-- `kind.destination()`
unfoldable pub destination : ImageKind → Processor × ℕ
destination ImageKind.umac_primary = (Processor.umac, rpu_mem_umac_patch_bimg)
destination ImageKind.umac_secondary = (Processor.umac, rpu_mem_umac_patch_bin)
destination ImageKind.lmac_primary = (Processor.lmac, rpu_mem_lmac_patch_bimg)
destination ImageKind.lmac_secondary = (Processor.lmac, rpu_mem_lmac_patch_bin)

-- `Rpu<B>` with the delay: the operations of memory.rs that the loader calls.
pub record RpuPort : Type 1 where
  pub Rpu : Type 0
  pub BusError : Type 0
  pub reset_processor : Processor → Action Rpu (RpuError BusError) (Unit {0})
  pub write : Processor → ℕ → List ℕ → Action Rpu (RpuError BusError) (Unit {0})
  pub write_u32 : Processor → ℕ → ℕ → Action Rpu (RpuError BusError) (Unit {0})
  pub write_register : ℕ → ℕ → Action Rpu (RpuError BusError) (Unit {0})
  pub read_u32 : Processor → ℕ → Action Rpu (RpuError BusError) ℕ
  pub delay_ms : ℕ → Rpu → Rpu

module _ (port : RpuPort) (sha256 : List ℕ → List ℕ) where
  open port use {
    Rpu, BusError, reset_processor, write, write_u32, write_register, read_u32, delay_ms,
  }

  abbrev pub Access : Type 0
  Access = Action Rpu (RpuError BusError) (Unit {0})

  abbrev pub Load : Type 0
  Load = Action Rpu (LoadError BusError) (Unit {0})

  -- The loop over the registers, zipped with their values.
  unfoldable pub write_vectors : List ℕ → List ℕ → Access
  write_vectors (address ∷ addresses) (value ∷ values) =
      write_register address value >> write_vectors addresses values
  write_vectors _ _ = pure (ok tt)

  unfoldable pub program_boot : Processor → BootConfig → Access
  program_boot processor config = do
    write_u32 processor config.signature_address 0
    write_register config.sleep_control config.patch_offset
    write_vectors config.vectors boot_vector_values
    write_register config.run_register 1

  -- The number of rounds left.
  unfoldable pub poll_signature : ℕ → Processor → ℕ → Access
  poll_signature zero processor address = pure (err RpuError.timeout)
  poll_signature (suc n) processor address =
      let rest = poll_signature n processor address in
      read_u32 processor address >>= λ value rpu.
      if value == boot_signature then (rpu, ok tt) else rest (delay_ms 10 rpu)

  unfoldable pub wait_for_boot_signature : Processor → ℕ → Access
  wait_for_boot_signature processor address = poll_signature 100 processor address

  unfoldable pub boot_processor : Processor → Access
  boot_processor processor = do
    program_boot processor (boot_config processor)
    wait_for_boot_signature processor (boot_config processor).signature_address

  -- `run_processor_operation` with each operation: LMAC first, then UMAC.
  unfoldable pub reset_processors : Load
  reset_processors = do
    map_error (LoadError.rpu (LoadStage.reset Processor.lmac)) (reset_processor Processor.lmac)
    map_error (LoadError.rpu (LoadStage.reset Processor.umac)) (reset_processor Processor.umac)

  unfoldable pub boot_processors : Load
  boot_processors = do
    map_error (LoadError.rpu (LoadStage.boot Processor.lmac)) (boot_processor Processor.lmac)
    map_error (LoadError.rpu (LoadStage.boot Processor.umac)) (boot_processor Processor.umac)

  -- One round of the loop in `download_images`.
  unfoldable pub download_image : FirmwareBundle → ImageKind → Load
  download_image bundle kind = map_error LoadError.firmware (pure (image bundle kind)) >>= λ found.
      map_error (LoadError.rpu (LoadStage.download kind))
        (write (destination kind).0 (destination kind).1 found.data_bytes)

  unfoldable pub download_images : FirmwareBundle → Load
  download_images bundle = do
    download_image bundle ImageKind.umac_primary
    download_image bundle ImageKind.umac_secondary
    download_image bundle ImageKind.lmac_primary
    download_image bundle ImageKind.lmac_secondary

  -- `load` once the bundle is verified.
  unfoldable pub load_rest : FirmwareBundle → Action Rpu (LoadError BusError) FirmwareReport
  load_rest bundle = do
    reset_processors
    download_images bundle
    boot_processors
    pure
        (ok record { version = bundle.header.version; feature_flags = bundle.header.feature_flags })

  unfoldable pub load :
      FirmwareBundle → TrustPolicy → Action Rpu (LoadError BusError) FirmwareReport
  load bundle trust = do
    map_error LoadError.firmware (pure (trust bundle))
    map_error LoadError.firmware (pure (verify_hash sha256 bundle))
    load_rest bundle
