-- ===== src/Control/Commands/Associate.antt =====
-- control.rs: the association command.
use Prim.Native.Nat.{ℕ, ◌+◌, ◌*◌, ◌^◌}
use embassy_zephyr_n_rf.Base.{
  List, [], ◌||◌, ltb, ◌==◌, if◌then◌else◌, Option, none, some, is_some, Outcome, ok, reject_if,
  length, replicate,
}
use embassy_zephyr_n_rf.Base.Actions.{◌>>◌}
use embassy_zephyr_n_rf.Protocol.Types.{ProtocolError, UmacCommand}
use embassy_zephyr_n_rf.Protocol.Writer.{
  Write, write_bytes, write_u8, write_u16, write_u32, write_zeros, write_fixed_u32,
}
use embassy_zephyr_n_rf.Control.Types.{MfpMode, AssociationSecurity, AssociationRequest}
use embassy_zephyr_n_rf.Control.Encode.{
  encode_umac, checked, validate_ssid, validate_ie, write_ssid, write_ie,
}
use embassy_zephyr_n_rf.Base.{unwrap_or}
use embassy_zephyr_n_rf.Base.{is_empty}

abbrev pub max_pairwise_ciphers : ℕ
max_pairwise_ciphers = 7

abbrev pub max_akm_suites : ℕ
max_akm_suites = 2

abbrev pub assoc_body_len : ℕ
assoc_body_len = 4 + 1563 + 6

-- `as i32`
unfoldable pub mfp_value : MfpMode → ℕ
mfp_value MfpMode.disabled = 0
mfp_value MfpMode.required = 1

unfoldable pub validate_association_security_counts :
    AssociationSecurity → Outcome ProtocolError (Unit {0})
validate_association_security_counts security =
    checked
      (reject_if
        (is_empty security.pairwise_ciphers
          || ltb max_pairwise_ciphers (length security.pairwise_ciphers))
        ProtocolError.limit_exceeded)
      (reject_if (is_empty security.akm_suites || ltb max_akm_suites (length security.akm_suites))
        ProtocolError.limit_exceeded)

unfoldable pub validate_optional_security :
    Option AssociationSecurity → Outcome ProtocolError (Unit {0})
validate_optional_security none = ok tt
validate_optional_security (some security) =
    checked (validate_ie security.rsn_information_element)
      (validate_association_security_counts security)

unfoldable pub validate_association_request : AssociationRequest → Outcome ProtocolError (Unit {0})
validate_association_request request =
    checked (validate_ssid request.ssid) (validate_optional_security request.security)

-- The bits are those of the MAC address (0), the frequency (2), the SSID (5) and the control port
-- (12, 13); the background scan (4); the previous BSSID (15); and with security the WPA element,
-- version, ciphers, key management and MFP (6 to 11) and the security itself (16).
unfoldable pub association_valid_fields : AssociationRequest → ℕ
association_valid_fields request =
    2 ^ 0
    + 2 ^ 2
    + 2 ^ 5
    + 2 ^ 12
    + 2 ^ 13
    + (if request.background_scan_period_s == 0 then 0 else 2 ^ 4)
    + (if is_some request.previous_bssid then 2 ^ 15 else 0)
    + (if is_some request.security
        then 2 ^ 6 + 2 ^ 7 + 2 ^ 8 + 2 ^ 9 + 2 ^ 10 + 2 ^ 11 + 2 ^ 16
        else 0)

unfoldable pub write_association_validity : AssociationRequest → Write
write_association_validity request = do
  write_u32 (if is_some request.previous_bssid then 1 else 0)
  write_u32 (association_valid_fields request)

unfoldable pub write_association_frequency : AssociationRequest → Write
write_association_frequency request = do
  write_u32 request.frequency_mhz
  write_u32 0
  write_u32 (if is_some request.security then 2 ^ 1 else 0)

unfoldable pub write_association_header : AssociationRequest → Write
write_association_header request = do
  write_association_validity request
  write_association_frequency request

-- `security.map(...).unwrap_or(...)`
abbrev pub pairwise_of : Option AssociationSecurity → List ℕ
pairwise_of none = []
pairwise_of (some security) = security.pairwise_ciphers

abbrev pub group_of : Option AssociationSecurity → ℕ
group_of none = 0
group_of (some security) = security.group_cipher

abbrev pub akm_of : Option AssociationSecurity → List ℕ
akm_of none = []
akm_of (some security) = security.akm_suites

abbrev pub mfp_of : Option AssociationSecurity → MfpMode
mfp_of none = MfpMode.disabled
mfp_of (some security) = security.mfp

abbrev pub rsn_of : Option AssociationSecurity → List ℕ
rsn_of none = []
rsn_of (some security) = security.rsn_information_element

unfoldable pub write_association_group_and_akm : Option AssociationSecurity → Write
write_association_group_and_akm security = do
  write_u32 (group_of security)
  write_u32 (length (akm_of security))
  write_fixed_u32 (akm_of security) max_akm_suites
  write_u32 (mfp_value (mfp_of security))

unfoldable pub write_association_ciphers : Option AssociationSecurity → Write
write_association_ciphers security = do
  write_u32 (length (pairwise_of security))
  write_fixed_u32 (pairwise_of security) max_pairwise_ciphers
  write_association_group_and_akm security

unfoldable pub write_association_network_names : AssociationRequest → Write
write_association_network_names request = do
  write_ssid request.ssid
  write_ie (rsn_of request.security)

unfoldable pub write_association_network : AssociationRequest → Write
write_association_network request = do
  write_u32 0
  write_u16 request.background_scan_period_s
  write_bytes request.bssid
  write_bytes (replicate 6 0)
  write_association_network_names request

unfoldable pub write_association_control_port : Write
write_association_control_port = do
  write_u32 0
  write_u16 0
  write_zeros (4 * 256)
  write_u16 0x888e
  write_u8 1
  write_u8 1

unfoldable pub write_association_previous_bssid : AssociationRequest → Write
write_association_previous_bssid request = do
  write_bytes (unwrap_or request.previous_bssid (replicate 6 0))
  write_u16 request.bss_max_idle_s
  write_bytes (unwrap_or request.previous_bssid (replicate 6 0))

unfoldable pub write_association_body : AssociationRequest → Write
write_association_body request = do
  write_association_header request
  write_association_ciphers request.security
  write_association_network request
  write_association_control_port
  write_association_previous_bssid request

unfoldable pub encode_associate : ℕ → ℕ → AssociationRequest → Outcome ProtocolError (List ℕ)
encode_associate out_len wdev_id request = checked (validate_association_request request) (
    encode_umac out_len UmacCommand.associate (some wdev_id) assoc_body_len
      (write_association_body request))
