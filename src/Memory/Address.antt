-- ===== src/Memory/Address.antt =====
-- memory.rs: the address translation of the RPU, and the checks on a range.
pub mod Regions
use Prim.Native.Nat.{ℕ, ◌+◌, ◌-◌, ◌*◌, ◌/◌, ◌%◌, ◌^◌}
use embassy_zephyr_n_rf.Base.{
  Option, none, some, Bool, not, ◌||◌, ◌&&◌, ltb, leb, ◌==◌, in_range, if◌then◌else◌, Outcome, ok,
  err, reject_if, ok_or, map_err, ◌>>=◌, ◌>>◌, u32_mod, usize_mod,
}

pub data Processor : Type 0 where
  lmac umac : Processor

pub data AddressError : Type 0 where
  unsupported : ℕ → AddressError
  range : AddressError

pub data RpuError (E : Type 0) : Type 0 where
  bus : E → RpuError E
  address : AddressError → RpuError E
  unaligned timeout invalid_argument : RpuError E
  poll_timeout : ℕ → ℕ → ℕ → ℕ → RpuError E

abbrev pub sbus_start : ℕ
sbus_start = 2751463424

abbrev pub sbus_end : ℕ
sbus_end = 2751496191

abbrev pub pbus_start : ℕ
pbus_start = 2768240640

abbrev pub pbus_end : ℕ
pbus_end = 2768502783

abbrev pub gram_start : ℕ
gram_start = 3070230528

abbrev pub gram_end : ℕ
gram_end = 3070296575

abbrev pub pktram_start : ℕ
pktram_start = 2952790016

abbrev pub pktram_end : ℕ
pktram_end = 2952990719

abbrev pub lmac_rom_start : ℕ
lmac_rom_start = 2147483648

abbrev pub lmac_rom_end : ℕ
lmac_rom_end = 2147696639

abbrev pub lmac_ret_start : ℕ
lmac_ret_start = 2147745792

abbrev pub lmac_ret_end : ℕ
lmac_ret_end = 2147794943

abbrev pub lmac_scratch_start : ℕ
lmac_scratch_start = 2148007936

abbrev pub lmac_scratch_end : ℕ
lmac_scratch_end = 2148073471

abbrev pub umac_rom_start : ℕ
umac_rom_start = 2147483648

abbrev pub umac_rom_end : ℕ
umac_rom_end = 2147883007

abbrev pub umac_ret_start : ℕ
umac_ret_start = 2148007936

abbrev pub umac_ret_end : ℕ
umac_ret_end = 2148155391

abbrev pub umac_scratch_start : ℕ
umac_scratch_start = 2148532224

abbrev pub umac_scratch_end : ℕ
umac_scratch_end = 2148761599

abbrev pub host_sbus_base : ℕ
host_sbus_base = 0

abbrev pub host_pbus_base : ℕ
host_pbus_base = 262144

abbrev pub host_gram_base : ℕ
host_gram_base = 524288

abbrev pub host_pktram_base : ℕ
host_pktram_base = 786432

abbrev pub host_lmac_direct_base : ℕ
host_lmac_direct_base = 1048576

abbrev pub host_umac_direct_base : ℕ
host_umac_direct_base = 2097152

-- `SpiTransport`'s longest transfer, `MAX_SPI_DATA_LEN`.
abbrev pub max_bus_chunk : ℕ
max_bus_chunk = 4096

unfoldable pub shared_region_base : ℕ → Option ℕ
shared_region_base addr =
    if in_range sbus_start sbus_end addr
    then some host_sbus_base
    else if in_range pbus_start pbus_end addr
    then some host_pbus_base
    else if in_range gram_start gram_end addr
    then some host_gram_base
    else if in_range pktram_start pktram_end addr
    then some host_pktram_base
    else none

unfoldable pub lmac_region_base : ℕ → Option ℕ
lmac_region_base addr =
    if in_range lmac_rom_start lmac_rom_end addr
      || in_range lmac_ret_start lmac_ret_end addr
      || in_range lmac_scratch_start lmac_scratch_end addr
    then some host_lmac_direct_base
    else none

unfoldable pub umac_region_base : ℕ → Option ℕ
umac_region_base addr =
    if in_range umac_rom_start umac_rom_end addr
      || in_range umac_ret_start umac_ret_end addr
      || in_range umac_scratch_start umac_scratch_end addr
    then some host_umac_direct_base
    else none

unfoldable pub processor_region_base : Processor → ℕ → Option ℕ
unfolding lmac_region_base umac_region_base
processor_region_base Processor.lmac addr = lmac_region_base addr
processor_region_base Processor.umac addr = umac_region_base addr

-- A base and 24 bits do not wrap.
unfoldable pub host_offset : Processor → ℕ → Outcome AddressError ℕ
unfolding shared_region_base processor_region_base
host_offset processor addr =
    let low = addr % 2 ^ 24 in
    elim (shared_region_base addr) [
      | some base ↦ ok (base + low)
      | none ↦ elim (processor_region_base processor addr) [
        | some base ↦ ok (base + low)
        | none ↦ err (AddressError.unsupported addr)
      ]
    ]

module _ {E : Type 0} where
  -- `u32::try_from(len - 1)`, for a positive `len`.
  unfoldable pub checked_span : ℕ → Outcome (RpuError E) ℕ
  checked_span len =
      if ltb (len - 1) u32_mod then ok (len - 1) else err (RpuError.address AddressError.range)

  unfoldable pub checked_access_end : ℕ → ℕ → Outcome (RpuError E) (ℕ × ℕ)
  unfolding checked_span
  checked_access_end addr len = do
    span ← checked_span len
    end ←
        ok_or (if ltb (addr + span) u32_mod then some (addr + span) else none)
          (RpuError.address AddressError.range)
    ok (span, end)

  unfoldable pub mapped_access_bounds : Processor → ℕ → ℕ → Outcome (RpuError E) (ℕ × ℕ)
  mapped_access_bounds processor addr end = do
    first ← map_err RpuError.address (host_offset processor addr)
    last ← map_err RpuError.address (host_offset processor end)
    ok (first, last)

  -- `last.checked_sub(first) != Some(span)`
  unfoldable pub checked_range : Processor → ℕ → ℕ → Outcome (RpuError E) (Unit {0})
  unfolding checked_access_end mapped_access_bounds
  checked_range processor addr len =
      if len == 0
      then (do _ ← map_err RpuError.address (host_offset processor addr); ok tt)
      else (do
        (span, end) ← checked_access_end addr len
        (first, last) ← mapped_access_bounds processor addr end
        reject_if (not (leb first last && (last - first == span)))
            (RpuError.address AddressError.range))

  unfoldable pub validate_access : Processor → ℕ → ℕ → Outcome (RpuError E) (Unit {0})
  unfolding checked_range
  validate_access processor addr len = do
    reject_if (not (addr % 4 == 0)) RpuError.unaligned
    padded_len ←
        ok_or (if ltb (len + 3) usize_mod then some ((len + 3) / 4 * 4) else none)
          RpuError.invalid_argument
    checked_range processor addr padded_len

  unfoldable pub chunk_host_offset : Processor → ℕ → ℕ → Outcome (RpuError E) ℕ
  unfolding host_offset
  chunk_host_offset processor addr index = do
    byte_offset ←
        ok_or (if ltb (index * max_bus_chunk) u32_mod then some (index * max_bus_chunk) else none)
          RpuError.invalid_argument
    chunk ←
        ok_or (if ltb (addr + byte_offset) u32_mod then some (addr + byte_offset) else none)
          RpuError.invalid_argument
    map_err RpuError.address (host_offset processor chunk)
