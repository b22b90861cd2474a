-- ===== src/Data/Tests.antt =====
-- data.rs: runs of the data path at concrete inputs.
use Prim.Native.Nat.{◌<◌, ℕ, ◌+◌, ◌%◌, ◌≤◌}
use embassy_zephyr_n_rf.Base.{
  subst, ◌≡◌, refl, List, [], ◌∷◌, ◌++◌, none, some, true, false, inr, ok, panic, arith, replicate,
}
use embassy_zephyr_n_rf.Base.Results.{Succeeds}
use embassy_zephyr_n_rf.Base.Bytes.{
  index, slice, read_u16, read_u32, index, slice, read_u16, read_u32,
}
use embassy_zephyr_n_rf.Base.Post.{Post}
use embassy_zephyr_n_rf.Base.Actions.{Then}
use embassy_zephyr_n_rf.Protocol.Types.{HostMessageType, HostMessageRef, Hpq}
use embassy_zephyr_n_rf.Data.Types.{from_u8, RxPayloadType, RxEventRef, packet_base, packet_end}
use embassy_zephyr_n_rf.Data.Port.{DevicePort}
use embassy_zephyr_n_rf.Data.Layout.{DataPath, new, tx_slot_address, rx_slot_address}
use embassy_zephyr_n_rf.Data.Layout.Regions.{slots_in_packet_ram, slots_disjoint, new_accepts}
use embassy_zephyr_n_rf.Data.Tokens.{in_flight, set_in_flight, reserve_tx}
use embassy_zephyr_n_rf.Data.Tokens.Ledger.{Tokens, reserve_finds_free}
use embassy_zephyr_n_rf.Data.Tokens.Refine.{
  TokenCall, Kept, outstanding, call_tokens, call_tokens-Kept,
}
use embassy_zephyr_n_rf.Data.Events.{
  packet, validated_data_payload, validate_rx_packet_array, parse_rx_event,
}
use embassy_zephyr_n_rf.Data.Convert.{
  convert_to_ethernet, convert_msdu, llc_ether_type, rebuild_ethernet,
}
use embassy_zephyr_n_rf.Data.Convert.Bounds.{Fits, convert_to_ethernet-Fits, short_mpdu_panics}
use embassy_zephyr_n_rf.Data.Transmit.{transmit}
use embassy_zephyr_n_rf.Data.Transmit.Settled.{Settled, transmit-Settled}
use embassy_zephyr_n_rf.Data.Receive.{
  ReceivedFrame, receive_packet, take_rx_descriptor, ensure_receive_capacity, slot_of,
  read_rx_or_repost, post_rx, available_rx_index, rx_queue_context, prepare_rx_descriptor,
  enqueue_rx, received_frame,
}
use embassy_zephyr_n_rf.Data.Receive.Posted.{Restored, receive_packet-Restored}

abbrev queue : Hpq
queue = record { enqueue_address = 0; dequeue_address = 0 }

-- A device that is initialized, accepts every write and reads zeros.
abbrev working : DevicePort
working = record {
  Device = ℕ;
  DeviceError = ℕ;
  RpuError = ℕ;
  not_initialized = 0;
  queues = λ _. some record {
    event_busy = queue;
    event_available = queue;
    command_busy = queue;
    command_available = queue;
    rx_buffer_busy = queue ∷ queue ∷ queue ∷ [];
  };
  rx_command_base = λ _. some 3070234968;
  tx_command_base = λ _. some 2952790200;
  rpu_read = λ _ _ n d. (d, inr (replicate n 0));
  rpu_write = λ _ _ _ d. (d, none);
  rpu_write_u32 = λ _ _ _ d. (d, none);
  rpu_write_indirect = λ _ _ _ d. (d, none);
  enqueue = λ _ _ d. (d, none);
  trigger_command = λ d. (d, none);
}

-- Two descriptors and two tokens of 64 bytes.
abbrev path : DataPath
path = record {
  rx_buffer_size = 64;
  tx_buffer_size = 64;
  rx_stride = 68;
  tx_stride = 116;
  rx_base = 2952990584;
  tx_in_flight = false ∷ false ∷ [];
  rx_posted = false ∷ false ∷ [];
  next_tx = 0;
}

path-new : new 2 2 64 64 ≡ ok path
unfolding new
path-new = refl

path-Tokens : Tokens 2 path
path-Tokens = record {
  some_token = omega arith;
  token_count = omega arith;
  flags = refl;
  next = omega arith;
}

new_accepts_example : Succeeds (new 2 2 64 64)
new_accepts_example =
    new_accepts 2 2 64 64 (omega arith) (omega arith) (omega arith) (omega arith) (omega arith)
      (omega arith) (omega arith) (omega arith) (omega arith)

slots_in_packet_ram_example :
    (a : ℕ) × (b : ℕ) × (tx_slot_address 2 2 1 path ≡ some a)
    × (rx_slot_address 2 2 0 path ≡ some b)
    × (packet_base ≤ a)
    × (a + 64 + 52 ≤ b)
    × (b + 64 + 4 ≤ packet_end + 1)
    × (a % 4 ≡ 0)
    × (b % 4 ≡ 0)
slots_in_packet_ram_example =
    slots_in_packet_ram 2 2 64 64 path 1 0 path-new (omega arith) (omega arith)

slots_disjoint_example :
    ((a : ℕ) × (b : ℕ) × (tx_slot_address 2 2 0 path ≡ some a)
      × (tx_slot_address 2 2 1 path ≡ some b)
      × (a + 64 + 52 ≤ b))
    × ((a : ℕ) × (b : ℕ) × (rx_slot_address 2 2 0 path ≡ some a)
        × (rx_slot_address 2 2 1 path ≡ some b)
        × (a + 64 + 4 ≤ b))
slots_disjoint_example =
    slots_disjoint 2 2 64 64 path 0 1 0 1 path-new (omega arith) (omega arith) (omega arith)
      (omega arith)

reserve_finds_free_example :
    (u : ℕ) × (u < 2)
    × (in_flight u path ≡ false)
    × (reserve_tx 2 2 path ≡ (record (set_in_flight u true path) { next_tx = (u + 1) % 2 }, some u))
reserve_finds_free_example = reserve_finds_free 2 2 0 path path-Tokens (omega arith) refl

-- Both tokens, a third request, and the return of the first.
abbrev token_calls : List TokenCall
token_calls =
    TokenCall.reserve
    ∷ TokenCall.reserve
    ∷ TokenCall.reserve
    ∷ TokenCall.complete 0
    ∷ TokenCall.complete 0
    ∷ TokenCall.reset
    ∷ []

call_tokens-Kept_example :
    Kept 2
      (outstanding path)
      token_calls
      (call_tokens 2 2 token_calls path).1
      (outstanding (call_tokens 2 2 token_calls path).0)
call_tokens-Kept_example = call_tokens-Kept 2 2 token_calls path path-Tokens

transmit-Settled_example :
    Settled working 2 2 path (transmit working 2 2 0 (replicate 20 7) 0 (path, 0))
transmit-Settled_example = transmit-Settled working 2 2 0 0 (replicate 20 7) path 0 path-Tokens

-- A receive event with one packet of descriptor 1: 40 bytes in the Ethernet format.
abbrev rx_message : HostMessageRef
rx_message = record {
  resubmit = false;
  message_type = HostMessageType.data_path;
  payload =
      (3 ∷ 0 ∷ 0 ∷ 0 ∷ 37 ∷ 0 ∷ 0 ∷ 0 ∷ 0 ∷ 0 ∷ 0 ∷ 0 ∷ 0 ∷ 1 ∷ 0 ∷ 24 ∷ 0 ∷ 0 ∷ 0 ∷ 0 ∷ [])
      ++ ((1 ∷ 0 ∷ 40 ∷ 0 ∷ 2 ∷ []) ++ replicate 12 0);
}

abbrev rx_event : RxEventRef
rx_event = record {
  payload = rx_message.payload;
  rx_packet_type = 0;
  rate_flags = 0;
  rate = 0;
  wdev_id = 0;
  packet_count = 1;
  mac_header_len = 24;
  frequency_mhz = 0;
  signal_dbm = 0;
}

rx_event_parsed : parse_rx_event rx_message ≡ ok rx_event
unfolding parse_rx_event validated_data_payload read_u32 index validate_rx_packet_array slice
    read_u16
rx_event_parsed = refl

convert_to_ethernet-Fits_example :
    Post (Fits (replicate 40 8)) (convert_to_ethernet (replicate 40 8) RxPayloadType.mpdu 24)
convert_to_ethernet-Fits_example =
    convert_to_ethernet-Fits (replicate 40 8) RxPayloadType.mpdu 24 (omega arith)

short_mpdu_panics_example : convert_to_ethernet (8 ∷ []) RxPayloadType.mpdu 24 ≡ panic
short_mpdu_panics_example = short_mpdu_panics (8 ∷ []) 24 (omega arith) (omega arith)

abbrev posted_path : DataPath
posted_path = record path { rx_posted = true ∷ true ∷ [] }

-- The frame that the packet of `rx_event` gives.
abbrev frame : ReceivedFrame
frame = record { len = 38; ether_type = 0; descriptor_id = 1; signal_dbm = 0; frequency_mhz = 0 }

packet_received :
    receive_packet working 2 2 rx_event 0 (replicate 64 0) (posted_path, 0)
    ≡ ((posted_path, 0), ok (replicate 64 0, frame))
unfolding receive_packet take_rx_descriptor ensure_receive_capacity slot_of read_rx_or_repost
    post_rx available_rx_index rx_queue_context prepare_rx_descriptor enqueue_rx received_frame
    rx_slot_address convert_to_ethernet convert_msdu llc_ether_type rebuild_ethernet new packet
    from_u8 read_u16 index slice
packet_received = refl

receive_packet-Restored_example :
    Restored working 2 2 rx_event 0 posted_path (posted_path, 0) (replicate 64 0, frame)
receive_packet-Restored_example =
    subst (Then (Restored working 2 2 rx_event 0 posted_path)) packet_received
      (receive_packet-Restored working 2 2 rx_event 0 (replicate 64 0) posted_path 0 refl)
