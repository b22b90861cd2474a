-- ===== src/Control/Commands/Authenticate.antt =====
-- control.rs: the authentication command.
use Prim.Native.Nat.{ℕ, ◌+◌, ◌^◌}
use embassy_zephyr_n_rf.Base.{
  List, ltb, if◌then◌else◌, Option, none, some, is_some, Outcome, ok, reject_if, length,
}
use embassy_zephyr_n_rf.Base.Actions.{◌>>◌}
use embassy_zephyr_n_rf.Protocol.Types.{ProtocolError, UmacCommand}
use embassy_zephyr_n_rf.Protocol.Writer.{
  Write, write_bytes, write_u16, write_u32, write_u64, write_fixed,
}
use embassy_zephyr_n_rf.Control.Types.{
  AuthenticationType, KeyConfig, BssContext, AuthenticationRequest,
}
use embassy_zephyr_n_rf.Control.Encode.{
  encode_umac, checked, validate_ssid, validate_ie, validate_key, write_ssid, write_ie,
  write_key_info,
}
use embassy_zephyr_n_rf.Base.{is_empty}

abbrev pub max_sae_len : ℕ
max_sae_len = 256

abbrev pub auth_body_len : ℕ
auth_body_len = 4 + 1672

-- `as i32` of the enums
unfoldable pub auth_type_value : AuthenticationType → ℕ
auth_type_value AuthenticationType.open_system = 0
auth_type_value AuthenticationType.shared_key = 1
auth_type_value AuthenticationType.fast_transition = 2
auth_type_value AuthenticationType.network_eap = 3
auth_type_value AuthenticationType.sae = 4
auth_type_value AuthenticationType.automatic = 6

unfoldable pub validate_optional_key : Option KeyConfig → Outcome ProtocolError (Unit {0})
validate_optional_key none = ok tt
validate_optional_key (some key) = validate_key key

unfoldable pub validate_authentication_request :
    AuthenticationRequest → Outcome ProtocolError (Unit {0})
validate_authentication_request request = checked (validate_ssid request.ssid) (
    checked (validate_ie request.information_elements) (
      checked (validate_ie request.bss.information_elements) (
        checked (reject_if (ltb max_sae_len (length request.sae_data)) ProtocolError.limit_exceeded)
          (validate_optional_key request.key))))

-- The bits are those of the key (0), the frequency (2), the SSID (3) and the SAE data (5).
unfoldable pub authentication_valid_fields : AuthenticationRequest → ℕ
authentication_valid_fields request =
    2 ^ 2
    + 2 ^ 3
    + (if is_some request.key then 2 ^ 0 else 0)
    + (if is_empty request.sae_data then 0 else 2 ^ 5)

unfoldable pub write_authentication_header : AuthenticationRequest → Write
write_authentication_header request = do
  write_u32 (authentication_valid_fields request)
  write_u32 request.frequency_mhz
  write_u16 (if request.local_state_change then 1 else 0)
  write_u32 (auth_type_value request.auth_type)

unfoldable pub write_authentication_security : AuthenticationRequest → Write
write_authentication_security request = do
  write_key_info request.key
  write_ssid request.ssid
  write_ie request.information_elements

unfoldable pub write_authentication_sae : AuthenticationRequest → Write
write_authentication_sae request = do
  write_u32 (length request.sae_data)
  write_fixed request.sae_data max_sae_len
  write_bytes request.bssid

unfoldable pub write_authentication_bss_observation : BssContext → Write
write_authentication_bss_observation bss = do
  write_u32 bss.scan_width
  write_u32 bss.signal_dbm
  write_u32 (if bss.from_beacon then 1 else 0)
  write_ie bss.information_elements

unfoldable pub write_authentication_bss_timing : BssContext → Write
write_authentication_bss_timing bss = do
  write_u16 bss.capability
  write_u16 bss.beacon_interval
  write_u64 bss.tsf

unfoldable pub write_authentication_bss : AuthenticationRequest → Write
write_authentication_bss request = do
  write_authentication_bss_observation request.bss
  write_authentication_bss_timing request.bss

unfoldable pub write_authentication_body : AuthenticationRequest → Write
write_authentication_body request = do
  write_authentication_header request
  write_authentication_security request
  write_authentication_sae request
  write_authentication_bss request

unfoldable pub encode_authenticate : ℕ → ℕ → AuthenticationRequest → Outcome ProtocolError (List ℕ)
encode_authenticate out_len wdev_id request = checked (validate_authentication_request request) (
    encode_umac out_len UmacCommand.authenticate (some wdev_id) auth_body_len
      (write_authentication_body request))
