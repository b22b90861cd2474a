-- ===== src/Data/Types.antt =====
-- data.rs: constants, errors, and the records of the data events. An `i16` is kept as its bit
-- pattern.
use Prim.Native.Nat.{ℕ, ◌-◌, ◌/◌}
use embassy_zephyr_n_rf.Base.{◌==◌, if◌then◌else◌, List, Outcome, ok, err}

abbrev pub packet_base : ℕ
packet_base = 2952810496

abbrev pub packet_end : ℕ
packet_end = 2952990719

abbrev pub packet_ram_size : ℕ
packet_ram_size = 180224

-- `RPU_MEM_TX_CMD_BASE` of device.rs
abbrev pub tx_cmd_base : ℕ
tx_cmd_base = 2952790200

abbrev pub rx_buffer_headroom : ℕ
rx_buffer_headroom = 4

abbrev pub tx_buffer_headroom : ℕ
tx_buffer_headroom = 52

abbrev pub rx_command_slot_size : ℕ
rx_command_slot_size = 8

abbrev pub tx_command_slot_size : ℕ
tx_command_slot_size = 148

abbrev pub max_tx_tokens : ℕ
max_tx_tokens = (packet_base - tx_cmd_base) / tx_command_slot_size

abbrev pub ethernet_header_len : ℕ
ethernet_header_len = 14

abbrev pub rx_event_fixed_len : ℕ
rx_event_fixed_len = 20

abbrev pub rx_info_len : ℕ
rx_info_len = 17

abbrev pub tx_done_fixed_len : ℕ
tx_done_fixed_len = 22

pub data DataLayoutError : Type 0 where
  invalid_capacity packet_ram_exhausted : DataLayoutError

pub data DataProtocolError : Type 0 where
  wrong_message_type invalid_length invalid_packet_index : DataProtocolError
  frame_too_short frame_too_large : DataProtocolError
  invalid_command invalid_descriptor invalid_rx_payload_type : ℕ → DataProtocolError

pub data RxPayloadType : Type 0 where
  mpdu msdu_with_mac msdu : RxPayloadType

unfoldable pub from_u8 : ℕ → Outcome DataProtocolError RxPayloadType
from_u8 value =
    if value == 0
    then ok RxPayloadType.mpdu
    else if value == 1
    then ok RxPayloadType.msdu_with_mac
    else if value == 2
    then ok RxPayloadType.msdu
    else err (DataProtocolError.invalid_rx_payload_type value)

pub record RxPacketInfo : Type 0 where
  pub descriptor_id : ℕ
  pub packet_len : ℕ
  pub payload_type : RxPayloadType

pub record RxEventRef : Type 0 where
  pub payload : List ℕ
  pub rx_packet_type : ℕ
  pub rate_flags : ℕ
  pub rate : ℕ
  pub wdev_id : ℕ
  pub packet_count : ℕ
  pub mac_header_len : ℕ
  pub frequency_mhz : ℕ
  pub signal_dbm : ℕ

pub record TxDoneEventRef : Type 0 where
  pub token : ℕ
  pub statuses : List ℕ

pub data DataEvent : Type 0 where
  transmit_done : ℕ → ℕ → DataEvent
  carrier_on : ℕ → DataEvent
  carrier_off : ℕ → DataEvent
  receive : DataEvent
  other : ℕ → DataEvent
