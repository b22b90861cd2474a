-- ===== src/Data/Layout.antt =====
-- data.rs: the packet-RAM layout of `DataPath::new` and the slot addresses.
pub mod Regions
use Prim.Native.Nat.{ℕ, ◌+◌, ◌-◌, ◌*◌, ◌/◌, ◌%◌}
use embassy_zephyr_n_rf.Base.{
  checked_mul, checked_add, List, Option, none, some, Bool, false, ◌||◌, ltb, ◌==◌, if◌then◌else◌,
  Outcome, ok, reject_if, ok_or, ◌>>=◌, ◌>>◌, replicate, usize_mod, u32_mod,
}
use embassy_zephyr_n_rf.Data.Types.{
  DataLayoutError, packet_base, packet_end, packet_ram_size, max_tx_tokens, rx_buffer_headroom,
  tx_buffer_headroom, ethernet_header_len,
}

pub record DataPath : Type 0 where
  pub rx_buffer_size : ℕ
  pub tx_buffer_size : ℕ
  pub rx_stride : ℕ
  pub tx_stride : ℕ
  pub rx_base : ℕ
  pub tx_in_flight : List Bool
  pub rx_posted : List Bool
  pub next_tx : ℕ

-- `(value + 3) & !3`
unfoldable pub align4 : ℕ → ℕ
align4 value = (value + 3) % usize_mod / 4 * 4

unfoldable pub validate_buffer_sizes : ℕ → ℕ → Outcome DataLayoutError (Unit {0})
validate_buffer_sizes rx_buffer_size tx_buffer_size = do
  reject_if ((rx_buffer_size == 0) || ltb tx_buffer_size ethernet_header_len)
      DataLayoutError.invalid_capacity
  reject_if (ltb 65535 rx_buffer_size || ltb 65535 tx_buffer_size) DataLayoutError.invalid_capacity

unfoldable pub layout_strides : ℕ → ℕ → Outcome DataLayoutError (ℕ × ℕ)
unfolding align4
layout_strides rx_buffer_size tx_buffer_size = do
  rx_with_headroom ←
      ok_or (checked_add rx_buffer_size rx_buffer_headroom) DataLayoutError.invalid_capacity
  tx_with_headroom ←
      ok_or (checked_add tx_buffer_size tx_buffer_headroom) DataLayoutError.invalid_capacity
  ok (align4 rx_with_headroom, align4 tx_with_headroom)

-- `RX` and `TX`, the numbers of descriptors and tokens.
module _ (RX TX : ℕ) where
  unfoldable pub validate_descriptor_counts : Outcome DataLayoutError (Unit {0})
  validate_descriptor_counts = do
    reject_if ((RX == 0) || (TX == 0)) DataLayoutError.invalid_capacity
    reject_if (ltb 65535 RX || ltb max_tx_tokens TX) DataLayoutError.invalid_capacity

  unfoldable pub validate_layout_capacity : ℕ → ℕ → Outcome DataLayoutError (Unit {0})
  unfolding validate_descriptor_counts validate_buffer_sizes
  validate_layout_capacity rx_buffer_size tx_buffer_size = do
    validate_descriptor_counts
    validate_buffer_sizes rx_buffer_size tx_buffer_size

  unfoldable pub validated_layout_bytes : ℕ → ℕ → Outcome DataLayoutError ℕ
  validated_layout_bytes rx_stride tx_stride = do
    rx_bytes ← ok_or (checked_mul rx_stride RX) DataLayoutError.packet_ram_exhausted
    tx_bytes ← ok_or (checked_mul tx_stride TX) DataLayoutError.packet_ram_exhausted
    total ← ok_or (checked_add rx_bytes tx_bytes) DataLayoutError.packet_ram_exhausted
    reject_if (ltb packet_ram_size total) DataLayoutError.packet_ram_exhausted
    ok rx_bytes

  -- `DataPath::new`
  unfoldable pub new : ℕ → ℕ → Outcome DataLayoutError DataPath
  unfolding validate_layout_capacity layout_strides validated_layout_bytes
  new rx_buffer_size tx_buffer_size = do
    validate_layout_capacity rx_buffer_size tx_buffer_size
    strides ← layout_strides rx_buffer_size tx_buffer_size
    rx_bytes ← validated_layout_bytes strides.0 strides.1
    ok record {
      rx_buffer_size = rx_buffer_size;
      tx_buffer_size = tx_buffer_size;
      rx_stride = strides.0;
      tx_stride = strides.1;
      rx_base = packet_end + 1 - rx_bytes % u32_mod;
      tx_in_flight = replicate TX false;
      rx_posted = replicate RX false;
      next_tx = 0;
    }

  unfoldable pub rx_slot_address : ℕ → DataPath → Option ℕ
  rx_slot_address descriptor p =
      if ltb descriptor RX
      then some ((p.rx_base + descriptor * p.rx_stride % u32_mod) % u32_mod)
      else none

  unfoldable pub tx_slot_address : ℕ → DataPath → Option ℕ
  tx_slot_address token p =
      if ltb token TX then some ((packet_base + token * p.tx_stride % u32_mod) % u32_mod) else none
