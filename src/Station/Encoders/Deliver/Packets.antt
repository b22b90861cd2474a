-- ===== src/Station/Encoders/Deliver/Packets.antt =====
-- station.rs over control.rs and protocol.rs: each command's encoder makes one packet.
use Prim.Native.Nat.{◌<◌, ℕ, ◌+◌, ◌*◌, ◌<◌, ◌≤◌}
use embassy_zephyr_n_rf.Base.Tests.{le→ltb_not}
use embassy_zephyr_n_rf.Base.{
  ◌≡◌, ap, ◌∙◌, List, Bool, true, false, not, ◌&&◌, ◌||◌, bytes_eq, [], ◌∷◌, Option, none, some,
  Outcome, ok, arith, length,
}
use embassy_zephyr_n_rf.Protocol.Types.{ProtocolError, UmacCommand, command_value, ScanRequest}
use embassy_zephyr_n_rf.Control.Types.{KeyConfig}
use embassy_zephyr_n_rf.Protocol.Writer.{Write, new_writer}
use embassy_zephyr_n_rf.Protocol.Writer.Appends.{Appends, Takes}
use embassy_zephyr_n_rf.Protocol.Umac.Header.{packet}
use embassy_zephyr_n_rf.Protocol.Commands.{
  exact, wdev_ids, encode_umac_command, encode_new_interface, encode_scan, encode_deauthenticate,
}
use embassy_zephyr_n_rf.Protocol.Commands.Packet.{filled-Takes, encode_umac_command-packet}
use embassy_zephyr_n_rf.Protocol.Commands.Lengths.{
  IsScan, validate_scan_request-accepts, scan_body_len-fits, write_scan_body-Takes,
  write_new_interface-Takes, write_deauthenticate_body-Takes,
}
use embassy_zephyr_n_rf.Control.Encode.{encode_umac}
use embassy_zephyr_n_rf.Base.{unwrap_or}
use embassy_zephyr_n_rf.Control.Encode.Packet.{valid_bits, encode_umac-packet}
use embassy_zephyr_n_rf.Control.Encode.Lengths.{IsKey, validate_key-accepts}
use embassy_zephyr_n_rf.Control.Commands.{
  all_alphabetic, validate_key_command, encode_set_regulatory, encode_key_command,
}
use embassy_zephyr_n_rf.Control.Commands.Lengths.{
  IsAuthentication, IsAssociation, IsOptionalAddress, write_key_command-Takes,
  write_regulatory-Takes,
}
use embassy_zephyr_n_rf.Station.Port.{Message}

-- The outcome is the packet of the command, with a body of the length.
pub record Packed (command : UmacCommand) (device : Option ℕ) (n : ℕ)
    (o : Outcome ProtocolError (List ℕ)) : Type 0 where
  pub body : List ℕ
  pub size : length body ≡ n
  pub fits : n ≤ 2000
  pub encoded : o ≡ ok (packet command (valid_bits device) (unwrap_or device 0) body)

pub umac_Packed :
    (command : UmacCommand) (device : Option ℕ) (n : ℕ) (body : Write)
    → n ≤ 2000
    → Takes n body
    → Packed command device n (encode_umac 2048 command device n body)
umac_Packed command device n body h t = record {
  body = t.bytes;
  size = t.size;
  fits = h;
  encoded = encode_umac-packet 2048 command device n body (omega arith) (omega arith) t;
}

pub command_Packed :
    (command : UmacCommand) (wdev_id : ℕ) (body : List ℕ) (n : ℕ)
    → length body ≡ n
    → n ≤ 976
    → Packed command (some wdev_id) n (encode_umac_command 2048 command (wdev_ids wdev_id) body)
command_Packed command wdev_id body n size h = record {
  body = body;
  size = size;
  fits = omega arith;
  encoded =
      encode_umac_command-packet 2048 command wdev_id body (omega arith) (omega arith)
        (omega arith);
}

-- The country is the world's "00" or two letters.
pub record IsCountry (country : List ℕ) : Type 0 where
  pub letters : (bytes_eq country (48 ∷ 48 ∷ []) || all_alphabetic country) ≡ true
  pub size : length country ≡ 2

-- `NewKey` or `DeleteKey`
abbrev pub IsKeyCommand : UmacCommand → Type 0
IsKeyCommand command = (6 ≤ command_value command) × (command_value command ≤ 7)

-- The arguments of the encoders are within the limits of the firmware's structures.
abbrev pub IsEncodable : Message → Type 0
IsEncodable (Message.new_interface_message _ mac_address name) =
    (length mac_address ≡ 6) × (length name ≤ 16)
IsEncodable (Message.set_regulatory_message _ country _ _) = IsCountry country
IsEncodable (Message.interface_flags_message _ _ _) = Unit
IsEncodable (Message.scan_message _ request) = IsScan request
IsEncodable (Message.get_scan_results_message _ _) = Unit
IsEncodable (Message.authenticate_message _ request) = IsAuthentication request
IsEncodable (Message.associate_message _ request) = IsAssociation request
IsEncodable (Message.key_message _ command peer key) =
    IsKeyCommand command × IsOptionalAddress peer × IsKey key
IsEncodable (Message.set_key_message _ key) = IsKey key
IsEncodable (Message.station_authorized_message _ peer _) = length peer ≡ 6
IsEncodable (Message.power_save_message _ _) = Unit
IsEncodable (Message.power_save_timeout_message _ _) = Unit
IsEncodable (Message.deauthenticate_message _ peer _ _) = length peer ≡ 6

-- The length of the firmware's structure behind the UMAC header.
abbrev pub body_len : Message → ℕ
body_len (Message.new_interface_message _ _ _) = 38
body_len (Message.set_regulatory_message _ _ _ _) = 10
body_len (Message.interface_flags_message _ _ _) = 5
body_len (Message.scan_message _ request) = 490 + length request.center_frequencies_mhz * 4
body_len (Message.get_scan_results_message _ _) = 4
body_len (Message.authenticate_message _ _) = 1676
body_len (Message.associate_message _ _) = 1573
body_len (Message.key_message _ _ _ _) = 545
body_len (Message.set_key_message _ _) = 535
body_len (Message.station_authorized_message _ _ _) = 793
body_len (Message.power_save_message _ _) = 4
body_len (Message.power_save_timeout_message _ _) = 4
body_len (Message.deauthenticate_message _ _ _ _) = 14

pub new_interface_Packed :
    (wdev_id kind : ℕ) (mac_address name : List ℕ)
    → length mac_address ≡ 6
    → length name ≤ 16
    → Packed UmacCommand.new_interface
        (some wdev_id)
        38
        (encode_new_interface 2048 wdev_id kind mac_address name)
unfolding encode_new_interface
new_interface_Packed wdev_id kind mac_address name h k =
    let t = write_new_interface-Takes kind mac_address name h k in
    rw (le→ltb_not (length name) 16 k, filled-Takes 38 _ (omega arith) t)
      (command_Packed UmacCommand.new_interface wdev_id t.bytes 38 t.size (omega arith))

pub deauthenticate_Packed :
    (wdev_id : ℕ) (peer : List ℕ) (reason_code : ℕ) (local : Bool)
    → length peer ≡ 6
    → Packed UmacCommand.deauthenticate
        (some wdev_id)
        14
        (encode_deauthenticate 2048 wdev_id peer reason_code local)
unfolding encode_deauthenticate
deauthenticate_Packed wdev_id peer reason_code local h =
    let t = write_deauthenticate_body-Takes peer reason_code local h in
    rw (filled-Takes 14 _ (omega arith) t)
      (command_Packed UmacCommand.deauthenticate wdev_id t.bytes 14 t.size (omega arith))

exact-Takes :
    (size : ℕ) (act : Write)
    → size < 4294967296
    → (t : Takes size act) → exact size (act (new_writer size)) ≡ ok t.bytes
unfolding Appends
exact-Takes size act small t =
    ap (exact size) (t.appends (new_writer size) (omega (arith, t.size)) small)
    ∙ ground (arith, t.size)

pub scan_Packed :
    (wdev_id : ℕ) (r : ScanRequest)
    → IsScan r
    → Packed UmacCommand.trigger_scan
        (some wdev_id)
        (490 + length r.center_frequencies_mhz * 4)
        (encode_scan 2048 wdev_id r)
unfolding encode_scan
scan_Packed wdev_id r v =
    let t = write_scan_body-Takes r v in
    rw
      (
        validate_scan_request-accepts r v,
        scan_body_len-fits (length r.center_frequencies_mhz) v.frequencies_len,
        exact-Takes _ _ (omega (arith, v.frequencies_len)) t,
      )
      (command_Packed UmacCommand.trigger_scan wdev_id t.bytes _ t.size
        (omega (arith, v.frequencies_len)))

validate_key_command-accepts :
    (command : UmacCommand) → IsKeyCommand command → validate_key_command command ≡ ok tt
unfolding validate_key_command
validate_key_command-accepts command h = ground arith

pub key_Packed :
    (wdev_id : ℕ) (command : UmacCommand) (peer : Option (List ℕ)) (key : KeyConfig)
    → IsKeyCommand command
    → IsOptionalAddress peer
    → IsKey key
    → Packed command (some wdev_id) 545 (encode_key_command 2048 wdev_id command peer key)
unfolding encode_key_command
key_Packed wdev_id command peer key c p k =
    rw (validate_key_command-accepts command c, validate_key-accepts key k)
      (umac_Packed command _ 545 _ (omega arith) (write_key_command-Takes peer key p k))

pub regulatory_Packed :
    (wdev_id : ℕ) (country : List ℕ) (hint : ℕ) (force : Bool)
    → IsCountry country
    → Packed UmacCommand.request_set_regulatory none 10
        (encode_set_regulatory 2048 wdev_id country hint force)
unfolding encode_set_regulatory
regulatory_Packed wdev_id country hint force c =
    rw (country_accepts country c)
      (umac_Packed _ _ 10 _ (omega arith) (write_regulatory-Takes country hint force c.size))
  where
    country_accepts :
        (country : List ℕ)
        → IsCountry country
        → (not (bytes_eq country (48 ∷ 48 ∷ [])) && not (all_alphabetic country)) ≡ false
    country_accepts country c = ground (arith, c.letters)
