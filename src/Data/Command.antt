-- ===== src/Data/Command.antt =====
-- data.rs: the packed TX command and the checks on a frame before it is sent.
use Prim.Native.Nat.{ℕ, ◌%◌}
use embassy_zephyr_n_rf.Base.{
  List, [], ◌∷◌, ◌++◌, ◌||◌, ltb, Outcome, ok, reject_if, ◌>>=◌, ◌>>◌, length, slice, index,
  u16_bytes, u32_bytes, be_u16, u16_mod,
}
use embassy_zephyr_n_rf.Data.Types.{DataProtocolError, ethernet_header_len}

abbrev pub tx_command_payload_len : ℕ
tx_command_payload_len = 47

-- `HOST_MESSAGE_HEADER_LEN + TX_COMMAND_PAYLOAD_LEN`
abbrev pub tx_command_total_len : ℕ
tx_command_total_len = 59

-- `HostMessageType::Data` is 2 and `DataCommand::TransmitBuffer` is 1.
unfoldable pub encode_tx_command {ℓ} : {E : Type ℓ} → ℕ → ℕ → List ℕ → ℕ → ℕ → Outcome E (List ℕ)
encode_tx_command wdev_id token frame dscp_tos dma_pointer = do
  destination ← slice frame 0 6
  source ← slice frame 6 12
  high ← index frame 12
  low ← index frame 13
  ok (
      u32_bytes tx_command_total_len
      ++ u32_bytes 0
      ++ u32_bytes 2
      ++ u32_bytes 1
      ++ u32_bytes tx_command_payload_len
      ++ (wdev_id ∷ token ∷ [])
      ++ u32_bytes 0
      ++ u16_bytes 0
      ++ destination
      ++ source
      ++ u16_bytes (be_u16 high low)
      ++ u32_bytes dscp_tos
      ++ (0 ∷ 0 ∷ [])
      ++ u32_bytes 0
      ++ (1 ∷ [])
      ++ u16_bytes (length frame % u16_mod)
      ++ u32_bytes dma_pointer)

unfoldable pub validate_transmit_frame : List ℕ → ℕ → Outcome DataProtocolError (Unit {0})
validate_transmit_frame frame capacity = do
  reject_if (ltb (length frame) ethernet_header_len) DataProtocolError.frame_too_short
  reject_if (ltb capacity (length frame) || ltb 65535 (length frame))
      DataProtocolError.frame_too_large
