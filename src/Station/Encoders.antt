-- ===== src/Station/Encoders.antt =====
-- station.rs: the encoders behind the messages of the controller, on its command buffer.
pub mod Deliver
pub mod Sent
mod Tests
use Prim.Native.Nat.{ℕ, ◌+◌, ◌*◌, ◌^◌, ◌<◌, ◌≤◌}
use embassy_zephyr_n_rf.Base.{List, Bool, Option, none, some, Outcome, ok, length}
use embassy_zephyr_n_rf.Protocol.Types.{ProtocolError, UmacCommand}
use embassy_zephyr_n_rf.Protocol.Commands.{
  encode_new_interface, encode_scan, encode_get_scan_results, encode_deauthenticate,
}
use embassy_zephyr_n_rf.Control.Encode.{max_station_message_len}
use embassy_zephyr_n_rf.Control.Commands.{
  encode_set_regulatory, encode_interface_state, encode_key_command, encode_set_key,
  encode_station_authorized, encode_power_save, encode_power_save_timeout,
}
use embassy_zephyr_n_rf.Control.Commands.Associate.{encode_associate}
use embassy_zephyr_n_rf.Control.Commands.Authenticate.{encode_authenticate}
use embassy_zephyr_n_rf.Station.Port.{Message}

-- `InterfaceType::Station as i32`
abbrev pub station_interface : ℕ
station_interface = 2

-- The encoder call of each command, into the controller's buffer `command`.
unfoldable pub encode_message : Message → Outcome ProtocolError (List ℕ)
encode_message (Message.new_interface_message wdev_id mac_address name) =
    encode_new_interface max_station_message_len wdev_id station_interface mac_address name
encode_message (Message.set_regulatory_message wdev_id country hint force) =
    encode_set_regulatory max_station_message_len wdev_id country hint force
encode_message (Message.interface_flags_message wdev_id up firmware_index) =
    encode_interface_state max_station_message_len wdev_id up firmware_index
encode_message (Message.scan_message wdev_id request) =
    encode_scan max_station_message_len wdev_id request
encode_message (Message.get_scan_results_message wdev_id reason) =
    encode_get_scan_results max_station_message_len wdev_id reason
encode_message (Message.authenticate_message wdev_id request) =
    encode_authenticate max_station_message_len wdev_id request
encode_message (Message.associate_message wdev_id request) =
    encode_associate max_station_message_len wdev_id request
encode_message (Message.key_message wdev_id command peer key) =
    encode_key_command max_station_message_len wdev_id command peer key
encode_message (Message.set_key_message wdev_id key) =
    encode_set_key max_station_message_len wdev_id key
encode_message (Message.station_authorized_message wdev_id peer authorized) =
    encode_station_authorized max_station_message_len wdev_id peer authorized
encode_message (Message.power_save_message wdev_id state) =
    encode_power_save max_station_message_len wdev_id state
encode_message (Message.power_save_timeout_message wdev_id timeout_ms) =
    encode_power_save_timeout max_station_message_len wdev_id timeout_ms
encode_message (Message.deauthenticate_message wdev_id peer reason_code local) =
    encode_deauthenticate max_station_message_len wdev_id peer reason_code local

-- The number of the command that the firmware is to run.
abbrev pub message_command : Message → UmacCommand
message_command (Message.new_interface_message _ _ _) = UmacCommand.new_interface
message_command (Message.set_regulatory_message _ _ _ _) = UmacCommand.request_set_regulatory
message_command (Message.interface_flags_message _ _ _) = UmacCommand.set_interface_flags
message_command (Message.scan_message _ _) = UmacCommand.trigger_scan
message_command (Message.get_scan_results_message _ _) = UmacCommand.get_scan_results
message_command (Message.authenticate_message _ _) = UmacCommand.authenticate
message_command (Message.associate_message _ _) = UmacCommand.associate
message_command (Message.key_message _ command _ _) = command
message_command (Message.set_key_message _ _) = UmacCommand.set_key
message_command (Message.station_authorized_message _ _ _) = UmacCommand.set_station
message_command (Message.power_save_message _ _) = UmacCommand.set_power_save
message_command (Message.power_save_timeout_message _ _) = UmacCommand.set_power_save_timeout
message_command (Message.deauthenticate_message _ _ _ _) = UmacCommand.deauthenticate

-- The device that the command is for; the regulatory domain is for none.
abbrev pub message_device : Message → Option ℕ
message_device (Message.new_interface_message wdev_id _ _) = some wdev_id
message_device (Message.set_regulatory_message _ _ _ _) = none
message_device (Message.interface_flags_message wdev_id _ _) = some wdev_id
message_device (Message.scan_message wdev_id _) = some wdev_id
message_device (Message.get_scan_results_message wdev_id _) = some wdev_id
message_device (Message.authenticate_message wdev_id _) = some wdev_id
message_device (Message.associate_message wdev_id _) = some wdev_id
message_device (Message.key_message wdev_id _ _ _) = some wdev_id
message_device (Message.set_key_message wdev_id _) = some wdev_id
message_device (Message.station_authorized_message wdev_id _ _) = some wdev_id
message_device (Message.power_save_message wdev_id _) = some wdev_id
message_device (Message.power_save_timeout_message wdev_id _) = some wdev_id
message_device (Message.deauthenticate_message wdev_id _ _ _) = some wdev_id
