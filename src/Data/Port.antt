-- ===== src/Data/Port.antt =====
-- data.rs: what the data path calls of device.rs and memory.rs, and its errors.
use Prim.Native.Nat.{ℕ}
use embassy_zephyr_n_rf.Base.{List, Option, ◌⊎◌}
use embassy_zephyr_n_rf.Memory.Address.{Processor}
use embassy_zephyr_n_rf.Protocol.Types.{Hpq, HpqmInfo}
use embassy_zephyr_n_rf.Data.Types.{DataProtocolError}

-- The operations of `Device` and of its `Rpu`. A result without a value is an option that holds
-- the error.
pub record DevicePort : Type 1 where
  pub Device : Type 0
  pub DeviceError : Type 0
  pub RpuError : Type 0
  pub not_initialized : DeviceError
  pub queues : Device → Option HpqmInfo
  pub rx_command_base : Device → Option ℕ
  pub tx_command_base : Device → Option ℕ
  pub rpu_read : Processor → ℕ → ℕ → Device → Device × (RpuError ⊎ List ℕ)
  pub rpu_write : Processor → ℕ → List ℕ → Device → Device × Option RpuError
  pub rpu_write_u32 : Processor → ℕ → ℕ → Device → Device × Option RpuError
  pub rpu_write_indirect : Processor → ℕ → List ℕ → Device → Device × Option RpuError
  pub enqueue : Hpq → ℕ → Device → Device × Option DeviceError
  pub trigger_command : Device → Device × Option DeviceError

pub data DataError (D R : Type 0) : Type 0 where
  device : D → DataError D R
  rpu : R → DataError D R
  protocol : DataProtocolError → DataError D R
  queue_ownership_uncertain : D → DataError D R
  no_transmit_token : DataError D R
  receive_descriptor_busy : ℕ → DataError D R
  output_too_small : ℕ → ℕ → DataError D R
