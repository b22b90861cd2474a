-- ===== src/Protocol/Commands.antt =====
-- protocol.rs: the writers of the UMAC header, and the commands of interface, scan and deauthentication.
pub mod Packet
pub mod Lengths
use Prim.Native.Nat.{ℕ, ◌+◌, ◌-◌, ◌*◌, ◌^◌}
use embassy_zephyr_n_rf.Base.{
  ◌++◌, List, [], ◌∷◌, Bool, true, false, not, ◌&&◌, ◌||◌, ltb, ◌==◌, if◌then◌else◌, Option, none,
  some, is_some, Outcome, ok, err, panic, reject_if, ok_or, checked_add, checked_mul, length,
  get_or, take, replicate, u32_bytes,
}
use embassy_zephyr_n_rf.Base.Actions.{Action, ◌>>◌}
use embassy_zephyr_n_rf.Protocol.Types.{
  ProtocolError, HostMessageType, UmacCommand, command_value, ScanReason, ScanRequest,
}
use embassy_zephyr_n_rf.Protocol.Writer.{
  Write, Writer, new_writer, write_bytes, write_u8, write_u16, write_u32, write_u64, write_fixed,
  write_u32s,
}
use embassy_zephyr_n_rf.Protocol.Message.{encode_host_message}
use embassy_zephyr_n_rf.Protocol.Umac.{InterfaceIds, validated_umac_inner_len, max_umac_inner_len}

abbrev pub max_scan_body_len : ℕ
max_scan_body_len = max_umac_inner_len - 36

abbrev pub max_scan_ssids : ℕ
max_scan_ssids = 2

abbrev pub max_scan_frequencies : ℕ
max_scan_frequencies = 64

abbrev pub max_scan_ie_len : ℕ
max_scan_ie_len = 400

abbrev pub max_ssid_len : ℕ
max_ssid_len = 32

-- The bits are those of the device (0), the interface index (1) and the wiphy index (2).
unfoldable pub valid_mask : InterfaceIds → ℕ
valid_mask ids =
    (if is_some ids.wdev_id then 1 else 0)
    + (if is_some ids.ifaceindex then 2 else 0)
    + (if is_some ids.wiphy_index then 4 else 0)

-- `option.unwrap_or(0)`
abbrev pub or_zero : Option ℕ → ℕ
or_zero none = 0
or_zero (some n) = n

-- `InterfaceIds::encode`
unfoldable pub write_ids : InterfaceIds → Write
write_ids ids = do
  write_u32 (valid_mask ids)
  write_u32 (or_zero ids.ifaceindex)
  write_u32 (or_zero ids.wiphy_index)
  write_u64 (or_zero ids.wdev_id)

unfoldable pub write_umac_header : UmacCommand → InterfaceIds → Write
write_umac_header command ids = do
  write_u32 0
  write_u32 0
  write_u32 (command_value command)
  write_u32 0
  write_ids ids

-- A buffer of a fixed length, with what the writer wrote to it; the rest stays zero.
abbrev pub filled : ℕ → Writer × Outcome ProtocolError (Unit {0}) → Outcome ProtocolError (List ℕ)
filled size (w, ok _) = ok (w.written ++ replicate (size - length w.written) 0)
filled size (w, err e) = err e
filled size (w, panic) = panic

-- The rest of an encoder behind a step that may fail.
abbrev pub then_encode :
    {A : Type 0}
    → Outcome ProtocolError A
    → (A → Outcome ProtocolError (List ℕ))
    → Outcome ProtocolError (List ℕ)
then_encode (ok a) k = k a
then_encode (err e) k = err e
then_encode panic k = panic

unfoldable pub encode_umac_command :
    ℕ → UmacCommand → InterfaceIds → List ℕ → Outcome ProtocolError (List ℕ)
encode_umac_command out_len command ids body =
    then_encode (validated_umac_inner_len (length body)) λ inner_len.
      then_encode
        (filled inner_len
          ((write_umac_header command ids >> write_bytes body) (new_writer inner_len)))
        λ inner. encode_host_message out_len HostMessageType.umac false inner

-- `InterfaceIds { wdev_id: Some(wdev_id as u64), ..InterfaceIds::default() }`
abbrev pub wdev_ids : ℕ → InterfaceIds
wdev_ids wdev_id = record { ifaceindex = none; wiphy_index = none; wdev_id = some wdev_id }

-- The station type has the number 2.
unfoldable pub write_new_interface_metadata : ℕ → Write
write_new_interface_metadata interface_type = do
  write_u32 (2 ^ 1 + 2 ^ 2 + 2 ^ 3)
  write_u32 interface_type
  write_u32 0
  write_u32 0

unfoldable pub write_new_interface_identity : List ℕ → List ℕ → Write
write_new_interface_identity mac_address interface_name = do
  write_bytes mac_address
  write_fixed interface_name 16

unfoldable pub encode_new_interface : ℕ → ℕ → ℕ → List ℕ → List ℕ → Outcome ProtocolError (List ℕ)
encode_new_interface out_len wdev_id interface_type mac_address interface_name =
    if ltb 16 (length interface_name)
    then err ProtocolError.limit_exceeded
    else then_encode
        (filled 38 (
          (write_new_interface_metadata interface_type
              >> write_new_interface_identity mac_address interface_name)
            (new_writer 38)))
        λ body. encode_umac_command out_len UmacCommand.new_interface (wdev_ids wdev_id) body

-- `reason as i32`
unfoldable pub scan_reason_value : ScanReason → ℕ
scan_reason_value ScanReason.display = 0
scan_reason_value ScanReason.connect = 1

unfoldable pub all_short : List (List ℕ) → Bool
all_short [] = true
all_short (ssid ∷ ssids) = not (ltb max_ssid_len (length ssid)) && all_short ssids

unfoldable pub validate_scan_capacities : ScanRequest → Outcome ProtocolError (Unit {0})
validate_scan_capacities request =
    reject_if
      (ltb max_scan_ssids request.ssid_count
        || (ltb max_scan_frequencies (length request.center_frequencies_mhz)
            || ltb max_scan_ie_len (length request.information_elements)))
      ProtocolError.limit_exceeded

unfoldable pub validate_scan_ssids : ScanRequest → Outcome ProtocolError (Unit {0})
validate_scan_ssids request =
    reject_if (not (all_short (take request.ssid_count request.ssids))) ProtocolError.limit_exceeded

unfoldable pub validate_scan_request : ScanRequest → Outcome ProtocolError (Unit {0})
validate_scan_request request = validate_scan_ssids_after (validate_scan_capacities request)
  where
    validate_scan_ssids_after : Outcome ProtocolError (Unit {0}) → Outcome ProtocolError (Unit {0})
    validate_scan_ssids_after (ok _) = validate_scan_ssids request
    validate_scan_ssids_after (err e) = err e
    validate_scan_ssids_after panic = panic

-- The fixed part has the reason and the prefix of the scan parameters.
unfoldable pub scan_body_len : ℕ → Outcome ProtocolError ℕ
scan_body_len frequency_count =
    let total = 4 + 486 + frequency_count * 4 in
    if ltb (4294967296 - 1) total
    then err ProtocolError.invalid_length
    else if ltb max_scan_body_len total
    then err ProtocolError.limit_exceeded
    else ok total

unfoldable pub write_scan_header : ScanRequest → Write
write_scan_header request = do
  write_u32 (scan_reason_value request.reason)
  write_u16 (if request.passive then 1 else 0)
  write_u8 request.ssid_count

-- The SSID of an index below the count, else the empty one.
abbrev pub ssid_at : ScanRequest → ℕ → List ℕ
ssid_at request index = if ltb index request.ssid_count then get_or request.ssids index [] else []

unfoldable pub write_scan_ssid : List ℕ → Write
write_scan_ssid ssid = do write_u8 (length ssid); write_fixed ssid max_ssid_len

-- The two rounds of the loop.
unfoldable pub write_scan_ssids : ScanRequest → Write
write_scan_ssids request = do
  write_scan_ssid (ssid_at request 0)
  write_scan_ssid (ssid_at request 1)

unfoldable pub write_scan_timing : ScanRequest → Write
write_scan_timing request = do
  write_u16 request.active_dwell_ms
  write_u16 request.passive_dwell_ms
  write_u16 (length request.center_frequencies_mhz)
  write_u8 (if request.skip_local_admin_macs then 1 else 0)

unfoldable pub write_scan_options : ScanRequest → Write
write_scan_options request = do
  write_u8 (if request.no_cck then 1 else 0)
  write_u8 request.bands
  write_u16 (length request.information_elements)
  write_fixed request.information_elements max_scan_ie_len
  write_bytes request.mac_address
  write_scan_timing request

unfoldable pub write_scan_body : ScanRequest → Write
write_scan_body request = do
  write_scan_header request
  write_scan_ssids request
  write_scan_options request
  write_u32s request.center_frequencies_mhz

-- The body of the scan, when the writer wrote as many bytes as announced.
abbrev pub exact : ℕ → Writer × Outcome ProtocolError (Unit {0}) → Outcome ProtocolError (List ℕ)
exact size (w, ok _) =
    if length w.written == size then ok w.written else err ProtocolError.invalid_length
exact size (w, err e) = err e
exact size (w, panic) = panic

unfoldable pub encode_scan : ℕ → ℕ → ScanRequest → Outcome ProtocolError (List ℕ)
encode_scan out_len wdev_id request = then_encode (validate_scan_request request) λ _.
    then_encode (scan_body_len (length request.center_frequencies_mhz)) λ body_len.
      then_encode (exact body_len (write_scan_body request (new_writer body_len)))
        λ body. encode_umac_command out_len UmacCommand.trigger_scan (wdev_ids wdev_id) body

unfoldable pub encode_get_scan_results : ℕ → ℕ → ScanReason → Outcome ProtocolError (List ℕ)
encode_get_scan_results out_len wdev_id reason =
    encode_umac_command out_len UmacCommand.get_scan_results (wdev_ids wdev_id)
      (u32_bytes (scan_reason_value reason))

unfoldable pub write_deauthenticate_body : List ℕ → ℕ → Bool → Write
write_deauthenticate_body bssid reason_code local_state_change = do
  write_u32 1
  write_u16 (if local_state_change then 1 else 0)
  write_u16 reason_code
  write_bytes bssid

unfoldable pub encode_deauthenticate : ℕ → ℕ → List ℕ → ℕ → Bool → Outcome ProtocolError (List ℕ)
encode_deauthenticate out_len wdev_id bssid reason_code local_state_change =
    then_encode
      (filled 14 (write_deauthenticate_body bssid reason_code local_state_change (new_writer 14)))
      λ body. encode_umac_command out_len UmacCommand.deauthenticate (wdev_ids wdev_id) body
