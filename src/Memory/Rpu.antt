-- ===== src/Memory/Rpu.antt =====
-- memory.rs: the accesses to the RPU over a bus: wake-up, transfers in chunks, words and registers.
-- `Rpu` is the bus that it owns, and `&mut` data that a call fills is its result. After the check on
-- the range, no address of the transfer wraps.
pub mod Flat
pub mod Chunks
pub mod Transfers
pub mod Polls
use Prim.Native.Nat.{ℕ, zero, suc, ◌+◌, ◌-◌, ◌*◌, ◌/◌, ◌%◌, ◌^◌, bit_and, min}
use embassy_zephyr_n_rf.Base.{
  List, [], ◌∷◌, ◌++◌, Bool, not, ◌||◌, ◌==◌, bit_set, if◌then◌else◌, Outcome, ok, err, reject_if,
  length, take, drop, replicate, u32_bytes, u32_at,
}
use embassy_zephyr_n_rf.Base.Actions.{Action, ◌>>=◌, ◌>>◌, pure, map_error}
use embassy_zephyr_n_rf.Base.Results
use embassy_zephyr_n_rf.Memory.Address.{
  Processor, RpuError, host_offset, validate_access, chunk_host_offset, max_bus_chunk,
}

abbrev pub opcode_read_status_1 : ℕ
opcode_read_status_1 = 0x1f

abbrev pub opcode_read_status_2 : ℕ
opcode_read_status_2 = 0x2f

abbrev pub opcode_write_status_2 : ℕ
opcode_write_status_2 = 0x3f

-- The status bits, by their numbers.
abbrev pub rpu_wake_request : ℕ
rpu_wake_request = 0

abbrev pub rpu_awake : ℕ
rpu_awake = 1

abbrev pub rpu_ready : ℕ
rpu_ready = 2

abbrev pub rpu_mcu_core_indirect_base : ℕ
rpu_mcu_core_indirect_base = 0xc0000000

abbrev pub rpu_reg_clock_enable : ℕ
rpu_reg_clock_enable = 0xa5008c20

abbrev pub rpu_clock_enable : ℕ
rpu_clock_enable = 0x100

unfoldable pub control_register : Processor → ℕ
control_register Processor.lmac = 0xa4000000
control_register Processor.umac = 0xa4000100

unfoldable pub wait_register : Processor → ℕ
wait_register Processor.lmac = 0xa4000018
wait_register Processor.umac = 0xa4000118

unfoldable pub indirect_control_register : Processor → ℕ
indirect_control_register Processor.lmac = 0xa4000030
indirect_control_register Processor.umac = 0xa4000130

unfoldable pub indirect_data_register : Processor → ℕ
indirect_data_register Processor.lmac = 0xa4000034
indirect_data_register Processor.umac = 0xa4000134

-- `Bus` of bus.rs, whose reads fill a buffer of the given length, and the delay.
pub record Bus : Type 1 where
  pub State : Type 0
  pub Error : Type 0
  pub read_status : ℕ → Action State Error ℕ
  pub write_status : ℕ → ℕ → Action State Error (Unit {0})
  pub read : ℕ → ℕ → Action State Error (List ℕ)
  pub write : ℕ → List ℕ → Action State Error (Unit {0})
  pub delay_ms : ℕ → State → State

abbrev pub chunk_count : ℕ → ℕ
chunk_count len = (len + (max_bus_chunk - 1)) / max_bus_chunk

module _ (bus : Bus) where
  abbrev pub Access : Type 0 → Type 0
  Access A = Action bus.State (RpuError bus.Error) A

  -- The number of rounds left.
  unfoldable pub wait_status_bit : ℕ → ℕ → ℕ → Access (Unit {0})
  wait_status_bit zero opcode bit = pure (err RpuError.timeout)
  wait_status_bit (suc attempts) opcode bit =
      let rest = wait_status_bit attempts opcode bit in
      map_error RpuError.bus (bus.read_status opcode) >>= λ status s.
      if bit_set status bit then (s, ok tt) else rest (bus.delay_ms 1 s)

  unfoldable pub wake : ℕ → Access (Unit {0})
  wake attempts = do
    map_error RpuError.bus (bus.write_status opcode_write_status_2 (2 ^ rpu_wake_request))
    wait_status_bit attempts opcode_read_status_2 rpu_wake_request
    wait_status_bit attempts opcode_read_status_1 rpu_awake

  unfoldable pub firmware_ready : Access Bool
  firmware_ready = map_error RpuError.bus (bus.read_status opcode_read_status_1) >>= λ state.
      pure (ok (bit_set state rpu_ready))

  -- The chunks of `data.chunks_mut(MAX_BUS_CHUNK)`: their number, the index of the first, and the
  -- bytes that they hold.
  unfoldable pub read_chunks : Processor → ℕ → ℕ → ℕ → ℕ → Access (List ℕ)
  read_chunks processor addr zero index len = pure (ok [])
  read_chunks processor addr (suc n) index len =
      pure (chunk_host_offset processor addr index) >>= λ offset.
      map_error RpuError.bus (bus.read offset (min max_bus_chunk len)) >>= λ chunk.
      read_chunks processor addr n (index + 1) (len - max_bus_chunk) >>= λ rest.
      pure (ok (chunk ++ rest))

  unfoldable pub read_aligned : Processor → ℕ → ℕ → Access (List ℕ)
  read_aligned processor addr len = read_chunks processor addr (chunk_count len) 0 len

  -- The last bytes of `data`, from a whole word.
  unfoldable pub read_tail : Processor → ℕ → ℕ → ℕ → Access (List ℕ)
  read_tail processor addr aligned_len len =
      let tail_len = len - aligned_len in
      if tail_len == 0
      then pure (ok [])
      else (pure (Results.map_err RpuError.address (host_offset processor (addr + aligned_len)))
          >>= λ offset.
              map_error RpuError.bus (bus.read offset 4) >>= λ tail. pure (ok (take tail_len tail)))

  -- The bytes that `read` puts into a buffer of the length.
  unfoldable pub read : Processor → ℕ → ℕ → Access (List ℕ)
  read processor addr len = pure (validate_access processor addr len) >>= λ _.
      read_aligned processor addr (len / 4 * 4) >>= λ words.
      read_tail processor addr (len / 4 * 4) len >>= λ tail. pure (ok (words ++ tail))

  unfoldable pub write_chunks : Processor → ℕ → ℕ → ℕ → List ℕ → Access (Unit {0})
  write_chunks processor addr zero index bytes = pure (ok tt)
  write_chunks processor addr (suc n) index bytes =
      pure (chunk_host_offset processor addr index) >>= λ offset.
      map_error RpuError.bus (bus.write offset (take max_bus_chunk bytes)) >>= λ _.
      write_chunks processor addr n (index + 1) (drop max_bus_chunk bytes)

  unfoldable pub write_aligned : Processor → ℕ → List ℕ → Access (Unit {0})
  write_aligned processor addr bytes =
      write_chunks processor addr (chunk_count (length bytes)) 0 bytes

  -- The last bytes, padded with zeros to a word.
  unfoldable pub write_tail : Processor → ℕ → ℕ → List ℕ → Access (Unit {0})
  write_tail processor addr aligned_len bytes =
      let tail_len = length bytes - aligned_len in
      if tail_len == 0
      then pure (ok tt)
      else (pure (Results.map_err RpuError.address (host_offset processor (addr + aligned_len)))
          >>= λ offset.
              map_error RpuError.bus
                (bus.write offset (drop aligned_len bytes ++ replicate (4 - tail_len) 0)))

  unfoldable pub write : Processor → ℕ → List ℕ → Access (Unit {0})
  write processor addr bytes = do
    pure (validate_access processor addr (length bytes))
    write_aligned processor addr (take (length bytes / 4 * 4) bytes)
    write_tail processor addr (length bytes / 4 * 4) bytes

  unfoldable pub read_u32 : Processor → ℕ → Access ℕ
  read_u32 processor addr = pure (reject_if (not (addr % 4 == 0)) RpuError.unaligned) >>= λ _.
      read processor addr 4 >>= λ bytes. pure (ok (u32_at bytes 0))

  unfoldable pub write_u32 : Processor → ℕ → ℕ → Access (Unit {0})
  write_u32 processor addr value = do
    pure (reject_if (not (addr % 4 == 0)) RpuError.unaligned)
    write processor addr (u32_bytes value)

  unfoldable pub read_register : ℕ → Access ℕ
  read_register addr = read_u32 Processor.lmac addr

  unfoldable pub write_register : ℕ → ℕ → Access (Unit {0})
  write_register addr value = write_u32 Processor.lmac addr value

  unfoldable pub validate_indirect_access : ℕ → ℕ → Outcome (RpuError bus.Error) (Unit {0})
  validate_indirect_access encoded_addr len =
      if not (encoded_addr / 2 ^ 24 * 2 ^ 24 == rpu_mcu_core_indirect_base)
      then err RpuError.unaligned
      else reject_if (not (encoded_addr % 4 == 0) || not (len % 4 == 0)) RpuError.unaligned

  -- The loop over the words of `data.chunks_exact(4)`.
  unfoldable pub write_indirect_words : Processor → List ℕ → Access (Unit {0})
  write_indirect_words processor (b0 ∷ b1 ∷ b2 ∷ b3 ∷ bytes) = do
    write_register (indirect_data_register processor) (u32_at (b0 ∷ b1 ∷ b2 ∷ b3 ∷ []) 0)
    write_indirect_words processor bytes
  write_indirect_words processor _ = pure (ok tt)

  unfoldable pub write_indirect : Processor → ℕ → List ℕ → Access (Unit {0})
  write_indirect processor encoded_addr bytes = do
    pure (validate_indirect_access encoded_addr (length bytes))
    write_register (indirect_control_register processor) (encoded_addr % 2 ^ 24 / 4)
    write_indirect_words processor bytes

  unfoldable pub enable_clocks : Access (Unit {0})
  enable_clocks = write_register rpu_reg_clock_enable rpu_clock_enable

  -- The attempts left, and the last value.
  unfoldable pub poll_rounds : ℕ → ℕ → ℕ → ℕ → ℕ → ℕ → Access (Unit {0})
  poll_rounds addr mask expected delay zero last =
      pure (err (RpuError.poll_timeout addr mask expected last))
  poll_rounds addr mask expected delay (suc attempts) last = read_register addr >>= λ value.
      let rest = poll_rounds addr mask expected delay attempts value in
      λ s. if bit_and value mask == expected then (s, ok tt) else rest (bus.delay_ms delay s)

  unfoldable pub poll_register : ℕ → ℕ → ℕ → ℕ → ℕ → Access (Unit {0})
  poll_register addr mask expected attempts delay = poll_rounds addr mask expected delay attempts 0

  unfoldable pub reset_processor : Processor → Access (Unit {0})
  reset_processor processor = do
    write_register (control_register processor) 1
    poll_register (control_register processor) 1 0 50 10
    poll_register (wait_register processor) 1 1 50 10
