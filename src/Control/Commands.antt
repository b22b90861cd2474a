-- ===== src/Control/Commands.antt =====
-- control.rs: the encoders of the station control commands.
pub mod Associate
pub mod Authenticate
pub mod Lengths
use Prim.Native.Nat.{ℕ, ◌+◌, ◌*◌, ◌^◌}
use embassy_zephyr_n_rf.Base.{
  List, [], ◌∷◌, Bool, true, not, ◌&&◌, ◌||◌, ltb, ◌==◌, in_range, if◌then◌else◌, Option, none,
  some, is_some, Outcome, ok, reject_if, length, replicate, bytes_eq, be_u16, get_or,
}
use embassy_zephyr_n_rf.Base.Actions.{◌>>◌}
use embassy_zephyr_n_rf.Protocol.Types.{ProtocolError, UmacCommand, command_value}
use embassy_zephyr_n_rf.Protocol.Writer.{
  Write, write_bytes, write_u8, write_u16, write_u32, write_u64, write_zeros, write_fixed,
  write_fixed_u32,
}
use embassy_zephyr_n_rf.Control.Types.{
  AuthenticationType, KeyConfig, PowerSaveState, BssContext, AuthenticationRequest, MfpMode,
  AssociationSecurity, AssociationRequest,
}
use embassy_zephyr_n_rf.Control.Encode.{
  power_save_value, encode_umac, checked, validate_ssid, validate_ie, validate_key, write_ssid,
  write_ie, write_key_info, write_default_key_info, key_info_len, change_station_info_len,
}
use embassy_zephyr_n_rf.Base.{unwrap_or}
use embassy_zephyr_n_rf.Base.{is_empty}

-- The command must be `NewKey` or `DeleteKey`.
unfoldable pub validate_key_command : UmacCommand → Outcome ProtocolError (Unit {0})
validate_key_command command =
    reject_if (not (command_value command == 6) && not (command_value command == 7))
      (ProtocolError.invalid_value (command_value command))

unfoldable pub write_key_command : Option (List ℕ) → KeyConfig → Write
write_key_command peer key = do
  write_u32 (if is_some peer then 1 else 0)
  write_key_info (some key)
  write_bytes (unwrap_or peer (replicate 6 0))

unfoldable pub encode_key_command :
    ℕ → ℕ → UmacCommand → Option (List ℕ) → KeyConfig → Outcome ProtocolError (List ℕ)
encode_key_command out_len wdev_id command peer key = checked (validate_key_command command) (
    checked (validate_key key) (
      encode_umac out_len command (some wdev_id) (4 + key_info_len + 6)
        (write_key_command peer key)))

unfoldable pub encode_set_key : ℕ → ℕ → KeyConfig → Outcome ProtocolError (List ℕ)
encode_set_key out_len wdev_id key = checked (validate_key key) (
    encode_umac out_len UmacCommand.set_key (some wdev_id) key_info_len
      (write_default_key_info key))

unfoldable pub write_interface_state : Bool → ℕ → Write
write_interface_state up firmware_index = do
  write_u32 (if up then 1 else 0)
  write_u8 firmware_index

unfoldable pub encode_interface_state : ℕ → ℕ → Bool → ℕ → Outcome ProtocolError (List ℕ)
encode_interface_state out_len wdev_id up firmware_index =
    encode_umac out_len UmacCommand.set_interface_flags (some wdev_id) 5
      (write_interface_state up firmware_index)

-- `is_ascii_alphabetic`
abbrev pub is_alphabetic : ℕ → Bool
is_alphabetic b = in_range 65 90 b || in_range 97 122 b

unfoldable pub all_alphabetic : List ℕ → Bool
all_alphabetic [] = true
all_alphabetic (b ∷ bs) = is_alphabetic b && all_alphabetic bs

unfoldable pub write_regulatory : List ℕ → ℕ → Bool → Write
write_regulatory country user_hint_type force = do
  write_u32 (2 ^ 0 + 2 ^ 1 + (if force then 2 ^ 2 else 0))
  write_u32 user_hint_type
  write_bytes country

-- The country has two bytes; "00" is the world regulatory domain.
unfoldable pub encode_set_regulatory : ℕ → ℕ → List ℕ → ℕ → Bool → Outcome ProtocolError (List ℕ)
encode_set_regulatory out_len wdev_id country user_hint_type force =
    checked
      (reject_if (not (bytes_eq country (48 ∷ 48 ∷ [])) && not (all_alphabetic country))
        (ProtocolError.invalid_value (be_u16 (get_or country 0 0) (get_or country 1 0))))
      (encode_umac out_len UmacCommand.request_set_regulatory none 10
        (write_regulatory country user_hint_type force))

unfoldable pub encode_power_save : ℕ → ℕ → PowerSaveState → Outcome ProtocolError (List ℕ)
encode_power_save out_len wdev_id state =
    encode_umac out_len UmacCommand.set_power_save (some wdev_id) 4
      (write_u32 (power_save_value state))

unfoldable pub encode_power_save_timeout : ℕ → ℕ → ℕ → Outcome ProtocolError (List ℕ)
encode_power_save_timeout out_len wdev_id timeout_ms =
    encode_umac out_len UmacCommand.set_power_save_timeout (some wdev_id) 4 (write_u32 timeout_ms)

unfoldable pub write_station_authorized_flags : Bool → Write
write_station_authorized_flags authorized = do
  write_u32 (2 ^ 12)
  write_zeros 260
  write_u32 (2 ^ 1)
  write_u32 (if authorized then 2 ^ 1 else 0)

unfoldable pub write_station_authorized_body : List ℕ → Bool → Write
write_station_authorized_body peer authorized = do
  write_station_authorized_flags authorized
  write_zeros 512
  write_bytes peer
  write_zeros 3

unfoldable pub encode_station_authorized : ℕ → ℕ → List ℕ → Bool → Outcome ProtocolError (List ℕ)
encode_station_authorized out_len wdev_id peer authorized =
    encode_umac out_len UmacCommand.set_station (some wdev_id) (4 + change_station_info_len)
      (write_station_authorized_body peer authorized)
