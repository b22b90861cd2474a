-- ===== src/Control/Parse.antt =====
-- control.rs: the parser of the control events.
pub mod NoPanic
use Prim.Native.Nat.{ℕ, ◌+◌, ◌-◌, ◌/◌, ◌%◌, ◌^◌}
use embassy_zephyr_n_rf.Base.{
  List, [], ◌∷◌, Bool, ◌||◌, ltb, leb, ◌==◌, in_range, if◌then◌else◌, Outcome, ok, ok_or, reject_if,
  checked_add, length, ◌>>=◌, ◌>>◌, read_u16, read_u32, read_u64,
}
use embassy_zephyr_n_rf.Base.Bytes.{index, slice}
use embassy_zephyr_n_rf.Protocol.Types.{ProtocolError, HostMessageRef, UmacHeader}
use embassy_zephyr_n_rf.Protocol.Umac.{parse_umac_event}
use embassy_zephyr_n_rf.Control.Types.{MlmeEvent, ScanResultEvent, ControlEvent}

abbrev pub mlme_fixed_body_len : ℕ
mlme_fixed_body_len = 439

abbrev pub scan_result_fixed_body_len : ℕ
scan_result_fixed_body_len = 70

abbrev pub event_regulatory_change : ℕ
event_regulatory_change = 289

unfoldable pub require_len : List ℕ → ℕ → Outcome ProtocolError (Unit {0})
require_len bytes len = reject_if (ltb (length bytes) len) ProtocolError.invalid_length

-- A negative length has its top bit set, so it is above 400 as well.
unfoldable pub mlme_variable_extents : List ℕ → Outcome ProtocolError (ℕ × ℕ)
mlme_variable_extents body = do
  frame_len ← read_u32 body 24
  reject_if (leb (2 ^ 31) frame_len || ltb 400 frame_len) ProtocolError.invalid_length
  request_ie_len ← read_u32 body 435
  required ← ok_or (checked_add mlme_fixed_body_len request_ie_len) ProtocolError.invalid_length
  require_len body required
  ok (28 + frame_len, required)

unfoldable pub parse_mlme : UmacHeader → List ℕ → Outcome ProtocolError MlmeEvent
parse_mlme header body = do
  require_len body mlme_fixed_body_len
  (frame_end, required) ← mlme_variable_extents body
  valid_fields ← read_u32 body 0
  frequency_mhz ← read_u32 body 4
  signal_dbm ← read_u32 body 8
  flags ← read_u32 body 12
  cookie ← read_u64 body 16
  bssid ← slice body 428 434
  frame ← slice body 28 frame_end
  request_information_elements ← slice body mlme_fixed_body_len required
  ok record {
    header = header;
    valid_fields = valid_fields;
    frequency_mhz = frequency_mhz;
    signal_dbm = signal_dbm;
    flags = flags;
    cookie = cookie;
    bssid = bssid;
    frame = frame;
    request_information_elements = request_information_elements;
  }

-- `signal / 100` on the bit pattern of an `i32` rounds toward zero.
unfoldable pub normalized_scan_signal : ℕ → ℕ → ℕ
normalized_scan_signal signal_type signal =
    if signal_type == 2
    then if leb (2 ^ 31) signal then (2 ^ 32 - (2 ^ 32 - signal) / 100) % 2 ^ 32 else signal / 100
    else signal

unfoldable pub scan_result_variable_extents : List ℕ → Outcome ProtocolError (ℕ × ℕ)
scan_result_variable_extents body = do
  ies_len ← read_u32 body 62
  beacon_len ← read_u32 body 66
  ies_end ← ok_or (checked_add scan_result_fixed_body_len ies_len) ProtocolError.invalid_length
  beacon_end ← ok_or (checked_add ies_end beacon_len) ProtocolError.invalid_length
  require_len body beacon_end
  ok (ies_end, beacon_end)

unfoldable pub parse_scan_result : UmacHeader → List ℕ → Outcome ProtocolError ScanResultEvent
parse_scan_result header body = do
  require_len body scan_result_fixed_body_len
  (ies_end, beacon_end) ← scan_result_variable_extents body
  signal_type ← read_u32 body 48
  raw_signal ← read_u32 body 52
  valid_fields ← read_u32 body 0
  frequency_mhz ← read_u32 body 8
  channel_width ← read_u32 body 12
  seen_ms_ago ← read_u32 body 16
  status ← read_u32 body 24
  bssid ← slice body 56 62
  beacon_interval ← read_u16 body 44
  capability ← read_u16 body 46
  information_elements ← slice body scan_result_fixed_body_len ies_end
  beacon_information_elements ← slice body ies_end beacon_end
  ok record {
    header = header;
    valid_fields = valid_fields;
    frequency_mhz = frequency_mhz;
    channel_width = channel_width;
    seen_ms_ago = seen_ms_ago;
    status = status;
    signal = normalized_scan_signal signal_type raw_signal;
    bssid = bssid;
    beacon_interval = beacon_interval;
    capability = capability;
    information_elements = information_elements;
    beacon_information_elements = beacon_information_elements;
  }

unfoldable pub parse_scan_done_event : UmacHeader → List ℕ → Outcome ProtocolError ControlEvent
parse_scan_done_event header body = do
  require_len body 8
  status ← read_u32 body 0
  scan_type ← read_u32 body 4
  ok (ControlEvent.scan_done header status scan_type)

unfoldable pub parse_scan_result_event : UmacHeader → List ℕ → Outcome ProtocolError ControlEvent
parse_scan_result_event header body = do
  event ← parse_scan_result header body
  ok (ControlEvent.scan_result event)

unfoldable pub parse_authentication_event : UmacHeader → List ℕ → Outcome ProtocolError ControlEvent
parse_authentication_event header body = do
  event ← parse_mlme header body
  ok (ControlEvent.authentication event)

unfoldable pub parse_association_event : UmacHeader → List ℕ → Outcome ProtocolError ControlEvent
parse_association_event header body = do
  event ← parse_mlme header body
  ok (ControlEvent.association event)

abbrev parse_deauthentication : UmacHeader → List ℕ → Outcome ProtocolError ControlEvent
parse_deauthentication header body = do
  event ← parse_mlme header body
  ok (ControlEvent.deauthentication event)

abbrev parse_disassociation : UmacHeader → List ℕ → Outcome ProtocolError ControlEvent
parse_disassociation header body = do
  event ← parse_mlme header body
  ok (ControlEvent.disassociation event)

-- Deauthenticate is event 264 and Disassociate 265.
unfoldable pub parse_disconnect_event : UmacHeader → List ℕ → Outcome ProtocolError ControlEvent
parse_disconnect_event header body =
    if header.command_event == 264
    then parse_deauthentication header body
    else parse_disassociation header body

unfoldable pub parse_command_status_event : UmacHeader → List ℕ → Outcome ProtocolError ControlEvent
parse_command_status_event header body = do
  require_len body 8
  command ← read_u32 body 0
  status ← read_u32 body 4
  ok (ControlEvent.command_status header command status)

unfoldable pub parse_interface_status_event :
    UmacHeader → List ℕ → Outcome ProtocolError ControlEvent
parse_interface_status_event header body = do
  require_len body 4
  status ← read_u32 body 0
  ok (ControlEvent.interface_state header status)

unfoldable pub parse_regulatory_change_event :
    UmacHeader → List ℕ → Outcome ProtocolError ControlEvent
parse_regulatory_change_event header body = do
  require_len body 9
  first ← index body 7
  second ← index body 8
  ok (ControlEvent.regulatory_change header (first ∷ second ∷ []))

unfoldable pub is_scan_or_connection_event : ℕ → Bool
is_scan_or_connection_event event = in_range 259 263 event

unfoldable pub is_disconnect_event : ℕ → Bool
is_disconnect_event event = (event == 264) || (event == 265)

-- The events are ScanDone, ScanResult, Authenticate and Associate.
unfoldable pub parse_scan_or_connection_event :
    UmacHeader → List ℕ → Outcome ProtocolError ControlEvent
parse_scan_or_connection_event header body =
    if header.command_event == 259
    then parse_scan_done_event header body
    else if header.command_event == 260
    then parse_scan_result_event header body
    else if header.command_event == 261
    then parse_authentication_event header body
    else if header.command_event == 262
    then parse_association_event header body
    else ok (ControlEvent.other header body)

-- The events are CommandStatus, InterfaceFlagsStatus and the regulatory change.
unfoldable pub parse_status_event : UmacHeader → List ℕ → Outcome ProtocolError ControlEvent
parse_status_event header body =
    if header.command_event == 292
    then parse_command_status_event header body
    else if header.command_event == 275
    then parse_interface_status_event header body
    else if header.command_event == event_regulatory_change
    then parse_regulatory_change_event header body
    else ok (ControlEvent.other header body)

abbrev pub parse_event : UmacHeader → List ℕ → Outcome ProtocolError ControlEvent
parse_event header body =
    if is_scan_or_connection_event header.command_event
    then parse_scan_or_connection_event header body
    else if is_disconnect_event header.command_event
    then parse_disconnect_event header body
    else parse_status_event header body

unfoldable pub parse_control_event : HostMessageRef → Outcome ProtocolError ControlEvent
parse_control_event message = do (header, body) ← parse_umac_event message; parse_event header body
