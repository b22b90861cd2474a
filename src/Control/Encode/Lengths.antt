-- ===== src/Control/Encode/Lengths.antt =====
-- control.rs: how many bytes the parts of a command take.
use Prim.Native.Nat.{◌≤◌, ◌<◌, ℕ}
use embassy_zephyr_n_rf.Base.{Outcome, [], append-nil}
use embassy_zephyr_n_rf.Protocol.Types.{ProtocolError}
use embassy_zephyr_n_rf.Protocol.Writer.Appends.{
  Appends, >>-Takes, write_u8-Takes, write_u16-Takes, write_u64-Takes, write_zeros-Takes,
  write_fixed-Takes,
}
use embassy_zephyr_n_rf.Control.Types.{KeyConfig}
use embassy_zephyr_n_rf.Base.{Option, none, some, List, length, ◌≡◌, refl, ok, arith}
use embassy_zephyr_n_rf.Control.Encode.{
  write_station_command_header, write_station_index_header, validate_ssid, validate_ie,
  validate_key, write_ssid, write_ie, write_key_info_header, write_key_info_material,
  write_key_info, write_default_key_header, write_default_key_material, write_default_key_info,
  or_fail,
}
use embassy_zephyr_n_rf.Protocol.Types.{UmacCommand}
use embassy_zephyr_n_rf.Protocol.Writer.Appends.{Takes, >>-Takes, write_u32-Takes}
use embassy_zephyr_n_rf.Control.Encode.{write_station_host_header}

write_station_host_header-Takes : (total : ℕ) → Takes 12 (write_station_host_header total)
unfolding write_station_host_header
write_station_host_header-Takes total =
    >>-Takes (write_u32-Takes _) (>>-Takes (write_u32-Takes _) (write_u32-Takes _))

write_station_command_header-Takes :
    (command : UmacCommand) → Takes 16 (write_station_command_header command)
unfolding write_station_command_header
write_station_command_header-Takes command =
    >>-Takes (write_u32-Takes _)
      (>>-Takes (write_u32-Takes _) (>>-Takes (write_u32-Takes _) (write_u32-Takes _)))

write_station_index_header-Takes :
    (wdev_id : Option ℕ) → Takes 20 (write_station_index_header wdev_id)
unfolding write_station_index_header
write_station_index_header-Takes wdev_id =
    >>-Takes (write_u32-Takes _)
      (>>-Takes (write_u32-Takes _) (>>-Takes (write_u32-Takes _) (write_u64-Takes _)))

or_fail-Takes : (check : Outcome ProtocolError (Unit {0})) → check ≡ ok tt → Takes 0 (or_fail check)
unfolding Appends
or_fail-Takes check h = record {
  bytes = [];
  size = refl;
  appends = λ w room small. rw (h, append-nil w.written) refl;
}

pub validate_ssid-accepts : (value : List ℕ) → length value ≤ 32 → validate_ssid value ≡ ok tt
unfolding validate_ssid
validate_ssid-accepts value h = ground arith

pub validate_ie-accepts : (value : List ℕ) → length value ≤ 400 → validate_ie value ≡ ok tt
unfolding validate_ie
validate_ie-accepts value h = ground arith

pub write_ssid-Takes : (value : List ℕ) → length value ≤ 32 → Takes 33 (write_ssid value)
unfolding write_ssid
write_ssid-Takes value h =
    >>-Takes (or_fail-Takes _ (validate_ssid-accepts value h))
      (>>-Takes (write_u8-Takes _) (write_fixed-Takes value 32 h))

pub write_ie-Takes : (value : List ℕ) → length value ≤ 400 → Takes 402 (write_ie value)
unfolding write_ie
write_ie-Takes value h =
    >>-Takes (or_fail-Takes _ (validate_ie-accepts value h))
      (>>-Takes (write_u16-Takes _) (write_fixed-Takes value 400 h))

write_key_info_header-Takes :
    (key : KeyConfig) (valid : ℕ) → Takes 14 (write_key_info_header key valid)
unfolding write_key_info_header
write_key_info_header-Takes key valid =
    >>-Takes (write_u32-Takes _)
      (>>-Takes (write_u32-Takes _) (>>-Takes (write_u16-Takes _) (write_u32-Takes _)))

-- A key within the limits of the firmware's structure.
pub record IsKey (key : KeyConfig) : Type 0 where
  pub key_len : length key.key ≤ 256
  pub sequence_len : length key.sequence ≤ 256
  pub index : key.key_index < 4

pub validate_key-accepts : (key : KeyConfig) → IsKey key → validate_key key ≡ ok tt
unfolding validate_key
validate_key-accepts key k = ground (arith, k.key_len, k.sequence_len, k.index)

write_key_info_material-Takes :
    (key : KeyConfig) → IsKey key → Takes 521 (write_key_info_material key)
unfolding write_key_info_material
write_key_info_material-Takes key k = >>-Takes (write_u32-Takes _) (
    >>-Takes (write_fixed-Takes key.key 256 k.key_len) (
      >>-Takes (write_u32-Takes _)
        (>>-Takes (write_fixed-Takes key.sequence 256 k.sequence_len) (write_u8-Takes _))))

-- An optional key within the limits.
abbrev pub IsOptionalKey : Option KeyConfig → Type 0
IsOptionalKey none = Unit {0}
IsOptionalKey (some key) = IsKey key

pub write_key_info-Takes :
    (key : Option KeyConfig) → IsOptionalKey key → Takes 535 (write_key_info key)
unfolding write_key_info
write_key_info-Takes none k = write_zeros-Takes 535
write_key_info-Takes (some key) k =
    >>-Takes (write_key_info_header-Takes key _) (write_key_info_material-Takes key k)

pub write_default_key_info-Takes : (key : KeyConfig) → Takes 535 (write_default_key_info key)
unfolding write_default_key_info write_default_key_header write_default_key_material
write_default_key_info-Takes key =
    >>-Takes
      (>>-Takes (write_u32-Takes _)
        (>>-Takes (write_u32-Takes _) (>>-Takes (write_u16-Takes _) (write_u32-Takes _))))
      (>>-Takes (write_u32-Takes _) (
        >>-Takes (write_zeros-Takes _)
          (>>-Takes (write_u32-Takes _) (>>-Takes (write_zeros-Takes _) (write_u8-Takes _)))))
