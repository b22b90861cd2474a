-- ===== src/Data/Events.antt =====
-- data.rs: the parsers of the data events.
pub mod NoPanic
use Prim.Native.Nat.{ℕ, ◌+◌, ◌-◌, ◌*◌, ◌%◌, ◌^◌}
use embassy_zephyr_n_rf.Base.{
  List, [], ◌∷◌, Bool, true, false, not, ◌||◌, ◌&&◌, ltb, leb, ◌==◌, if◌then◌else◌, Option, some,
  none, Outcome, ok, err, reject_if, ok_or, ◌>>=◌, ◌>>◌, length, slice, index, read_u16, read_u32,
  u8_mod, usize_mod,
}
use embassy_zephyr_n_rf.Protocol.Types.{HostMessageType, HostMessageRef}
use embassy_zephyr_n_rf.Data.Types.{
  DataProtocolError, RxPacketInfo, RxEventRef, TxDoneEventRef, DataEvent, from_u8,
  rx_event_fixed_len, rx_info_len, tx_done_fixed_len,
}
use embassy_zephyr_n_rf.Base.{checked_add, checked_mul}

abbrev pub is_data : HostMessageType → Bool
is_data HostMessageType.data_path = true
is_data _ = false

-- The payload and its declared length.
unfoldable pub validated_data_payload :
    HostMessageRef → ℕ → ℕ → Outcome DataProtocolError (List ℕ × ℕ)
validated_data_payload message expected_command minimum_len = do
  reject_if (not (is_data message.message_type)) DataProtocolError.wrong_message_type
  reject_if (ltb (length message.payload) minimum_len) DataProtocolError.invalid_length
  command ← read_u32 message.payload 0
  reject_if (not (command == expected_command)) (DataProtocolError.invalid_command command)
  declared ← read_u32 message.payload 4
  reject_if (ltb declared minimum_len || ltb (length message.payload) declared)
      DataProtocolError.invalid_length
  ok (message.payload, declared)

unfoldable pub validate_rx_packet_array : ℕ → ℕ → Outcome DataProtocolError (Unit {0})
validate_rx_packet_array declared packet_count = do
  packet_bytes ← ok_or (checked_mul packet_count rx_info_len) DataProtocolError.invalid_length
  required ← ok_or (checked_add rx_event_fixed_len packet_bytes) DataProtocolError.invalid_length
  reject_if (ltb declared required) DataProtocolError.invalid_length

-- `RxEventRef::parse`
unfoldable pub parse_rx_event : HostMessageRef → Outcome DataProtocolError RxEventRef
parse_rx_event message = do
  (payload, declared) ← validated_data_payload message 3 rx_event_fixed_len
  packet_count ← index payload 13
  validate_rx_packet_array declared packet_count
  view ← slice payload 0 declared
  rx_packet_type ← read_u16 payload 8
  rate_flags ← index payload 10
  rate ← index payload 11
  wdev_id ← index payload 12
  mac_header_len ← index payload 15
  frequency_mhz ← read_u16 payload 16
  signal_dbm ← read_u16 payload 18
  ok record {
    payload = view;
    rx_packet_type = rx_packet_type;
    rate_flags = rate_flags;
    rate = rate;
    wdev_id = wdev_id;
    packet_count = packet_count;
    mac_header_len = mac_header_len;
    frequency_mhz = frequency_mhz;
    signal_dbm = signal_dbm;
  }

unfoldable pub packet : RxEventRef → ℕ → Outcome DataProtocolError RxPacketInfo
packet event i = do
  reject_if (leb event.packet_count i) DataProtocolError.invalid_packet_index
  descriptor_id ← read_u16 event.payload (rx_event_fixed_len + i * rx_info_len)
  packet_len ← read_u16 event.payload (rx_event_fixed_len + i * rx_info_len + 2)
  kind ← index event.payload (rx_event_fixed_len + i * rx_info_len + 4)
  payload_type ← from_u8 kind
  ok record { descriptor_id = descriptor_id; packet_len = packet_len; payload_type = payload_type }

-- `TxDoneEventRef::parse`
unfoldable pub parse_tx_done_event : HostMessageRef → Outcome DataProtocolError TxDoneEventRef
parse_tx_done_event message = do
  (payload, declared) ← validated_data_payload message 2 tx_done_fixed_len
  status_count ← index payload 9
  required ← ok_or (checked_add tx_done_fixed_len status_count) DataProtocolError.invalid_length
  reject_if (not (declared == required)) DataProtocolError.invalid_length
  token ← index payload 8
  statuses ← slice payload tx_done_fixed_len required
  ok record { token = token; statuses = statuses }

abbrev pub all_zero : List ℕ → Bool
all_zero [] = true
all_zero (status ∷ rest) = (status == 0) && all_zero rest

unfoldable pub all_succeeded : TxDoneEventRef → Bool
all_succeeded event = not (length event.statuses == 0) && all_zero event.statuses

unfoldable pub classify_transmit_done : HostMessageRef → Outcome DataProtocolError DataEvent
classify_transmit_done message = do
  event ← parse_tx_done_event message
  ok (DataEvent.transmit_done event.token (length event.statuses % u8_mod))

unfoldable pub classify_carrier : List ℕ → ℕ → Bool → Outcome DataProtocolError DataEvent
classify_carrier payload declared on = do
  reject_if (ltb declared 12) DataProtocolError.invalid_length
  wdev_id ← read_u32 payload 8
  ok (if on then DataEvent.carrier_on wdev_id else DataEvent.carrier_off wdev_id)

unfoldable pub classify_data_command : HostMessageRef → ℕ → ℕ → Outcome DataProtocolError DataEvent
classify_data_command message command declared =
    if command == 2
    then classify_transmit_done message
    else if command == 3
    then ok DataEvent.receive
    else if command == 4
    then classify_carrier message.payload declared true
    else if command == 5
    then classify_carrier message.payload declared false
    else ok (DataEvent.other command)

unfoldable pub classify_data_event : HostMessageRef → Outcome DataProtocolError DataEvent
classify_data_event message = do
  reject_if (not (is_data message.message_type)) DataProtocolError.wrong_message_type
  reject_if (ltb (length message.payload) 8) DataProtocolError.invalid_length
  command ← read_u32 message.payload 0
  declared ← read_u32 message.payload 4
  reject_if (ltb declared 8 || ltb (length message.payload) declared)
      DataProtocolError.invalid_length
  classify_data_command message command declared
