-- ===== src/Control/Encode.antt =====
-- control.rs: the encoders of the station control commands, behind their common headers.
pub mod Lengths
pub mod Packet
use Prim.Native.Nat.{ℕ, ◌+◌, ◌^◌}
use embassy_zephyr_n_rf.Base.{
  unwrap_or, is_empty, List, [], ◌∷◌, Bool, true, false, not, ◌||◌, ltb, ◌==◌, if◌then◌else◌,
  Option, none, some, is_some, Outcome, ok, err, panic, reject_if, checked_add, length,
}
use embassy_zephyr_n_rf.Base.Actions.{Action, ◌>>◌}
use embassy_zephyr_n_rf.Protocol.Types.{ProtocolError, UmacCommand, command_value}
use embassy_zephyr_n_rf.Protocol.Writer.{
  Write, Writer, new_writer, write_u8, write_u16, write_u32, write_u64, write_zeros, write_fixed,
}
use embassy_zephyr_n_rf.Control.Types.{KeyType, KeyConfig, PowerSaveState}

abbrev pub umac_header_len : ℕ
umac_header_len = 36

abbrev pub host_header_len : ℕ
host_header_len = 12

abbrev pub key_info_len : ℕ
key_info_len = 535

abbrev pub change_station_info_len : ℕ
change_station_info_len = 789

abbrev pub max_station_message_len : ℕ
max_station_message_len = 2048

abbrev pub max_key_len : ℕ
max_key_len = 256

abbrev pub max_key_sequence_len : ℕ
max_key_sequence_len = 256

abbrev pub max_ie_len : ℕ
max_ie_len = 400

-- `as i32` of the enums
unfoldable pub key_type_value : KeyType → ℕ
key_type_value KeyType.group = 0
key_type_value KeyType.pairwise = 1
key_type_value KeyType.peer = 2

unfoldable pub power_save_value : PowerSaveState → ℕ
power_save_value PowerSaveState.disabled = 0
power_save_value PowerSaveState.enabled = 1

unfoldable pub write_station_host_header : ℕ → Write
write_station_host_header total = do write_u32 total; write_u32 0; write_u32 3

unfoldable pub write_station_command_header : UmacCommand → Write
write_station_command_header command = do
  write_u32 0
  write_u32 0
  write_u32 (command_value command)
  write_u32 0

unfoldable pub write_station_index_header : Option ℕ → Write
write_station_index_header wdev_id = do
  write_u32 (if is_some wdev_id then 1 else 0)
  write_u32 0
  write_u32 0
  write_u64 (unwrap_or wdev_id 0)

unfoldable pub write_station_headers : ℕ → UmacCommand → Option ℕ → Write
write_station_headers total command wdev_id = do
  write_station_host_header total
  write_station_command_header command
  write_station_index_header wdev_id

unfoldable pub validated_station_message_len : ℕ → ℕ → Outcome ProtocolError ℕ
validated_station_message_len out_len body_len =
    let total = host_header_len + umac_header_len + body_len in
    if not (is_some (checked_add (host_header_len + umac_header_len) body_len))
    then err ProtocolError.invalid_length
    else if ltb out_len total
    then err ProtocolError.buffer_too_small
    else if ltb max_station_message_len total
    then err ProtocolError.buffer_too_small
    else ok total

-- The end of `encode_umac`: the written bytes, when they are as many as announced.
abbrev pub finished : ℕ → Writer × Outcome ProtocolError (Unit {0}) → Outcome ProtocolError (List ℕ)
finished total (w, ok _) =
    if length w.written == total then ok w.written else err ProtocolError.invalid_length
finished total (w, err e) = err e
finished total (w, panic) = panic

abbrev pub write_message :
    UmacCommand → Option ℕ → Write → Outcome ProtocolError ℕ → Outcome ProtocolError (List ℕ)
write_message command wdev_id encode_body (ok total) =
    finished total ((write_station_headers total command wdev_id >> encode_body) (new_writer total))
write_message command wdev_id encode_body (err e) = err e
write_message command wdev_id encode_body panic = panic

-- The bytes at the start of the buffer of length `out_len`; the source returns their number.
unfoldable pub encode_umac : ℕ → UmacCommand → Option ℕ → ℕ → Write → Outcome ProtocolError (List ℕ)
encode_umac out_len command wdev_id body_len encode_body =
    write_message command wdev_id encode_body (validated_station_message_len out_len body_len)

-- A check before the rest of an encoder.
abbrev pub checked {ℓ} :
    {A : Type ℓ}
    → Outcome ProtocolError (Unit {0})
    → Outcome ProtocolError A
    → Outcome ProtocolError A
checked (ok _) rest = rest
checked (err e) rest = err e
checked panic rest = panic

unfoldable pub validate_ssid : List ℕ → Outcome ProtocolError (Unit {0})
validate_ssid ssid = reject_if (ltb 32 (length ssid)) ProtocolError.limit_exceeded

unfoldable pub validate_ie : List ℕ → Outcome ProtocolError (Unit {0})
validate_ie ie = reject_if (ltb max_ie_len (length ie)) ProtocolError.limit_exceeded

unfoldable pub validate_key : KeyConfig → Outcome ProtocolError (Unit {0})
validate_key key =
    reject_if
      (ltb max_key_len (length key.key)
        || (ltb max_key_sequence_len (length key.sequence) || ltb 3 key.key_index))
      ProtocolError.limit_exceeded

-- `if let Err(e) = check { return Err(e) }` inside a writer
abbrev pub or_fail : Outcome ProtocolError (Unit {0}) → Write
or_fail check w = (w, check)

unfoldable pub write_ssid : List ℕ → Write
write_ssid value = do or_fail (validate_ssid value); write_u8 (length value); write_fixed value 32

unfoldable pub write_ie : List ℕ → Write
write_ie value = do
  or_fail (validate_ie value)
  write_u16 (length value)
  write_fixed value max_ie_len

unfoldable pub write_key_info_header : KeyConfig → ℕ → Write
write_key_info_header key valid = do
  write_u32 valid
  write_u32 key.cipher_suite
  write_u16 key.flags
  write_u32 (key_type_value key.key_type)

unfoldable pub write_key_info_material : KeyConfig → Write
write_key_info_material key = do
  write_u32 (length key.key)
  write_fixed key.key max_key_len
  write_u32 (length key.sequence)
  write_fixed key.sequence max_key_sequence_len
  write_u8 key.key_index

-- The valid bits are those of the key (0), its type (1), index (2), sequence (3) and cipher (4).
unfoldable pub write_key_info : Option KeyConfig → Write
write_key_info none = write_zeros key_info_len
write_key_info (some key) = do
  write_key_info_header key (
      2 ^ 1
      + 2 ^ 2
      + 2 ^ 4
      + (if is_empty key.key then 0 else 2 ^ 0)
      + (if is_empty key.sequence then 0 else 2 ^ 3))
  write_key_info_material key

unfoldable pub write_default_key_header : KeyConfig → Write
write_default_key_header key = do write_u32 (2 ^ 2); write_u32 0; write_u16 key.flags; write_u32 0

unfoldable pub write_default_key_material : KeyConfig → Write
write_default_key_material key = do
  write_u32 0
  write_zeros max_key_len
  write_u32 0
  write_zeros max_key_sequence_len
  write_u8 key.key_index

unfoldable pub write_default_key_info : KeyConfig → Write
write_default_key_info key = do write_default_key_header key; write_default_key_material key
