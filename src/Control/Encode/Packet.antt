-- ===== src/Control/Encode/Packet.antt =====
-- control.rs: a command whose body fits its announced length is encoded into one packet.
use Prim.Native.Nat.{ℕ, ◌+◌, ◌≤◌}
use embassy_zephyr_n_rf.Base.{
  ◌≡◌, ap, ◌∙◌, List, ◌++◌, Option, is_some, if◌then◌else◌, ok, arith, length, u32_bytes, u64_bytes,
}
use embassy_zephyr_n_rf.Protocol.Types.{ProtocolError, HostMessageType, UmacCommand, command_value}
use embassy_zephyr_n_rf.Protocol.Writer.{Write, new_writer}
use embassy_zephyr_n_rf.Protocol.Writer.Appends.{
  write_u32-Appends, write_u64-Appends, appended, Appends, Takes, >>-Appends,
}
use embassy_zephyr_n_rf.Protocol.Umac.Header.{packet}
use embassy_zephyr_n_rf.Control.Encode.{
  write_station_host_header, write_station_command_header, write_station_index_header,
  write_station_headers, validated_station_message_len, finished, encode_umac,
}
use embassy_zephyr_n_rf.Base.{unwrap_or}

-- Bit 0 says that the device is given.
abbrev pub valid_bits : Option ℕ → ℕ
valid_bits wdev_id = if is_some wdev_id then 1 else 0

abbrev headers_bytes : ℕ → UmacCommand → Option ℕ → List ℕ
headers_bytes total command wdev_id =
    (u32_bytes total ++ (u32_bytes 0 ++ u32_bytes 3))
    ++ ((u32_bytes 0 ++ (u32_bytes 0 ++ (u32_bytes (command_value command) ++ u32_bytes 0)))
        ++ (u32_bytes (valid_bits wdev_id)
            ++ (u32_bytes 0 ++ (u32_bytes 0 ++ u64_bytes (unwrap_or wdev_id 0)))))

write_station_headers-Appends :
    (total : ℕ) (command : UmacCommand) (wdev_id : Option ℕ)
    → Appends (headers_bytes total command wdev_id) (write_station_headers total command wdev_id)
unfolding write_station_headers write_station_host_header write_station_command_header
    write_station_index_header
write_station_headers-Appends total command wdev_id =
    >>-Appends _ _ _ _
      (>>-Appends _ _ _ _ (write_u32-Appends total)
        (>>-Appends _ _ _ _ (write_u32-Appends 0) (write_u32-Appends 3)))
      (>>-Appends _ _ _ _
        (>>-Appends _ _ _ _ (write_u32-Appends 0) (
          >>-Appends _ _ _ _ (write_u32-Appends 0)
            (>>-Appends _ _ _ _ (write_u32-Appends (command_value command)) (write_u32-Appends 0))))
        (>>-Appends _ _ _ _ (write_u32-Appends (valid_bits wdev_id)) (
          >>-Appends _ _ _ _ (write_u32-Appends 0)
            (>>-Appends _ _ _ _ (write_u32-Appends 0) (write_u64-Appends (unwrap_or wdev_id 0))))))

validated_station_message_len-fits :
    (out_len n : ℕ)
    → 48 + n ≤ out_len
    → 48 + n ≤ 2048
    → validated_station_message_len out_len n ≡ ok (48 + n)
unfolding validated_station_message_len
validated_station_message_len-fits out_len n h k = ground arith

finished-full :
    (total : ℕ) (bytes : List ℕ)
    → length bytes ≡ total
    → finished total (appended bytes (new_writer total), ok tt) ≡ ok bytes
finished-full total bytes h = ground arith

pub encode_umac-packet :
    (out_len : ℕ) (command : UmacCommand) (wdev_id : Option ℕ) (n : ℕ) (body : Write)
    → 48 + n ≤ out_len
    → 48 + n ≤ 2048
    → (t : Takes n body)
    → encode_umac out_len command wdev_id n body
      ≡ ok (packet command (valid_bits wdev_id) (unwrap_or wdev_id 0) t.bytes)
unfolding encode_umac Appends embassy_zephyr_n_rf.Protocol.Types.message_type_value
encode_umac-packet out_len command wdev_id n body h k t =
    let bytes = headers_bytes (48 + n) command wdev_id ++ t.bytes in
    let size : length bytes ≡ 48 + n = omega (arith, t.size) in
    rw
      (
        validated_station_message_len-fits out_len n h k,
        >>-Appends _ _ _ _ (write_station_headers-Appends (48 + n) command wdev_id) t.appends
            (new_writer (48 + n)) (omega (arith, size)) (omega arith),
      )
      (finished-full (48 + n) bytes size
        ∙ ap (λ total. ok (headers_bytes total command wdev_id ++ t.bytes)) (omega (arith, t.size)))
