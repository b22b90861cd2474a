-- ===== src/Station/Encoders/Deliver.antt =====
-- station.rs: what the firmware finds at the start of the buffer for each message of the controller.
pub mod Packets
use Prim.Native.Nat.{◌^◌, ◌<◌, ℕ, ◌+◌, ◌*◌, ◌<◌, ◌≤◌}
use embassy_zephyr_n_rf.Base.Tests.{le→ltb_not}
use embassy_zephyr_n_rf.Base.{
  ◌++◌, ◌≡◌, refl, ap, ◌∙◌, List, Bool, true, false, not, ◌&&◌, ◌||◌, bytes_eq, [], ◌∷◌, Option,
  none, some, Outcome, ok, arith, length,
}
use embassy_zephyr_n_rf.Protocol.Types.{ProtocolError, UmacCommand, command_value, ScanRequest}
use embassy_zephyr_n_rf.Control.Types.{KeyConfig}
use embassy_zephyr_n_rf.Protocol.Writer.{Write, new_writer}
use embassy_zephyr_n_rf.Protocol.Writer.Appends.{Appends, Takes, write_u32-Takes}
use embassy_zephyr_n_rf.Protocol.Umac.Header.{header_of, packet, received, received-packet}
use embassy_zephyr_n_rf.Protocol.Commands.{
  exact, wdev_ids, encode_umac_command, encode_new_interface, encode_scan, encode_get_scan_results,
  encode_deauthenticate,
}
use embassy_zephyr_n_rf.Protocol.Commands.Packet.{filled-Takes, encode_umac_command-packet}
use embassy_zephyr_n_rf.Protocol.Commands.Lengths.{
  IsScan, validate_scan_request-accepts, scan_body_len-fits, write_scan_body-Takes,
  write_new_interface-Takes, write_deauthenticate_body-Takes,
}
use embassy_zephyr_n_rf.Control.Encode.{encode_umac}
use embassy_zephyr_n_rf.Base.{unwrap_or}
use embassy_zephyr_n_rf.Control.Encode.Packet.{valid_bits, encode_umac-packet}
use embassy_zephyr_n_rf.Control.Encode.Lengths.{
  IsKey, validate_key-accepts, write_default_key_info-Takes,
}
use embassy_zephyr_n_rf.Control.Commands.{
  all_alphabetic, validate_key_command, encode_set_regulatory, encode_interface_state,
  encode_key_command, encode_set_key, encode_station_authorized, encode_power_save,
  encode_power_save_timeout,
}
use embassy_zephyr_n_rf.Control.Commands.Associate.{encode_associate}
use embassy_zephyr_n_rf.Control.Commands.Authenticate.{encode_authenticate}
use embassy_zephyr_n_rf.Control.Commands.Lengths.{
  IsAuthentication, IsAssociation, IsOptionalAddress, validate_authentication_request-accepts,
  validate_association_request-accepts, write_authentication_body-Takes,
  write_association_body-Takes, write_key_command-Takes, write_interface_state-Takes,
  write_regulatory-Takes, write_station_authorized_body-Takes,
}
use embassy_zephyr_n_rf.Station.Port.{Message}
use embassy_zephyr_n_rf.Station.Encoders.{encode_message, message_command, message_device}
use embassy_zephyr_n_rf.Station.Encoders.Deliver.Packets.{
  Packed, umac_Packed, command_Packed, IsEncodable, body_len, new_interface_Packed,
  deauthenticate_Packed, scan_Packed, key_Packed, regulatory_Packed,
}

pub encode_message-Packed :
    (m : Message)
    → IsEncodable m
    → Packed (message_command m) (message_device m) (body_len m) (encode_message m)
unfolding encode_message encode_interface_state encode_get_scan_results encode_authenticate
    encode_associate encode_set_key encode_station_authorized encode_power_save
    encode_power_save_timeout
encode_message-Packed (Message.new_interface_message wdev_id mac_address name) (h, k) =
    new_interface_Packed wdev_id _ mac_address name h k
encode_message-Packed (Message.set_regulatory_message wdev_id country hint force) v =
    regulatory_Packed wdev_id country hint force v
encode_message-Packed (Message.interface_flags_message wdev_id up firmware_index) v =
    umac_Packed _ _ 5 _ (omega arith) (write_interface_state-Takes up firmware_index)
encode_message-Packed (Message.scan_message wdev_id request) v = scan_Packed wdev_id request v
encode_message-Packed (Message.get_scan_results_message wdev_id reason) v =
    command_Packed _ wdev_id _ 4 refl (omega arith)
encode_message-Packed (Message.authenticate_message wdev_id request) v =
    rw (validate_authentication_request-accepts request v)
      (umac_Packed _ _ 1676 _ (omega arith) (write_authentication_body-Takes request v))
encode_message-Packed (Message.associate_message wdev_id request) v =
    rw (validate_association_request-accepts request v)
      (umac_Packed _ _ 1573 _ (omega arith) (write_association_body-Takes request v))
encode_message-Packed (Message.key_message wdev_id command peer key) (c, p, k) =
    key_Packed wdev_id command peer key c p k
encode_message-Packed (Message.set_key_message wdev_id key) v =
    rw (validate_key-accepts key v)
      (umac_Packed _ _ 535 _ (omega arith) (write_default_key_info-Takes key))
encode_message-Packed (Message.station_authorized_message wdev_id peer authorized) v =
    umac_Packed _ _ 793 _ (omega arith) (write_station_authorized_body-Takes peer authorized v)
encode_message-Packed (Message.power_save_message wdev_id state) v =
    umac_Packed _ _ 4 _ (omega arith) (write_u32-Takes _)
encode_message-Packed (Message.power_save_timeout_message wdev_id timeout_ms) v =
    umac_Packed _ _ 4 _ (omega arith) (write_u32-Takes _)
encode_message-Packed (Message.deauthenticate_message wdev_id peer reason_code local) v =
    deauthenticate_Packed wdev_id peer reason_code local v

valid_bits_bound : (device : Option ℕ) → valid_bits device < 2 ^ 32
valid_bits_bound device = ground arith

-- Each message of the controller, with its arguments within the limits of the firmware's structures
-- and a device number of 32 bits, is encoded into 48 bytes of headers and the body of its command's
-- length, within the buffer of 2048 bytes. The parsers of host messages and UMAC headers, run on
-- these bytes and whatever follows them, find the number of the command, the device with its bit of
-- validity, zeros in the other fields, and the body.
pub encode_message-received :
    (m : Message) (rest : List ℕ)
    → IsEncodable m
    → unwrap_or (message_device m) 0 < 2 ^ 32
    → (bytes : List ℕ) × (body : List ℕ) × (encode_message m ≡ ok bytes)
      × (length bytes ≡ 48 + body_len m)
      × (length bytes ≤ 2048)
      × (received (bytes ++ rest)
          ≡ ok (
            header_of
                (message_command m)
                (valid_bits (message_device m))
                (unwrap_or (message_device m) 0),
            body,
          ))
      × (length body ≡ body_len m)
encode_message-received m rest v w =
    let p = encode_message-Packed m v in
    let fits = p.fits in
    let sized : length (
          packet (message_command m) (valid_bits (message_device m))
            (unwrap_or (message_device m) 0) p.body)
        ≡ 48 + body_len m =
      omega (arith, p.size) in
    (
      packet (message_command m) (valid_bits (message_device m)) (unwrap_or (message_device m) 0)
          p.body,
      p.body,
      p.encoded,
      sized,
      omega (arith, sized, fits),
      received-packet (message_command m) (valid_bits (message_device m))
          (unwrap_or (message_device m) 0) p.body rest (valid_bits_bound (message_device m))
          (omega arith) (omega (arith, p.size, fits)),
      p.size,
    )
