-- ===== src/Protocol/Commands/Packet.antt =====
-- protocol.rs: a command whose body fits its announced length is encoded into one packet.
use Prim.Native.Nat.{◌-◌, ℕ, ◌+◌, ◌<◌, ◌≤◌}
use embassy_zephyr_n_rf.Base.{◌≡◌, ap, ◌∙◌, List, ◌++◌, false, ok, arith, length, append-nil}
use embassy_zephyr_n_rf.Protocol.Types.{HostMessageType, UmacCommand, command_value}
use embassy_zephyr_n_rf.Protocol.Writer.{Write, new_writer}
use embassy_zephyr_n_rf.Protocol.Writer.Appends.{
  write_u32-Appends, write_u64-Appends, appended, Appends, Takes, write_bytes-Appends, >>-Appends,
}
use embassy_zephyr_n_rf.Protocol.Message.{encode_host_message}
use embassy_zephyr_n_rf.Protocol.Message.RoundTrip.{encode_host_message-framed}
use embassy_zephyr_n_rf.Protocol.Umac.{validated_umac_inner_len}
use embassy_zephyr_n_rf.Protocol.Umac.Header.{header_bytes, packet}
use embassy_zephyr_n_rf.Protocol.Commands.{
  then_encode, filled, wdev_ids, write_ids, valid_mask, write_umac_header, encode_umac_command,
}

write_umac_header-Appends :
    (command : UmacCommand) (wdev_id : ℕ)
    → Appends (header_bytes command 1 wdev_id) (write_umac_header command (wdev_ids wdev_id))
unfolding write_umac_header write_ids valid_mask
write_umac_header-Appends command wdev_id = >>-Appends _ _ _ _ (write_u32-Appends 0) (
    >>-Appends _ _ _ _ (write_u32-Appends 0) (
      >>-Appends _ _ _ _ (write_u32-Appends (command_value command)) (
        >>-Appends _ _ _ _ (write_u32-Appends 0) (
          >>-Appends _ _ _ _ (write_u32-Appends 1) (
            >>-Appends _ _ _ _ (write_u32-Appends 0)
              (>>-Appends _ _ _ _ (write_u32-Appends 0) (write_u64-Appends wdev_id)))))))

validated_umac_inner_len-fits : (n : ℕ) → 36 + n ≤ 1012 → validated_umac_inner_len n ≡ ok (36 + n)
unfolding validated_umac_inner_len
validated_umac_inner_len-fits n h = ground arith

-- A writer that fills its buffer leaves nothing to pad.
pub filled-full :
    (size : ℕ) (bytes : List ℕ)
    → length bytes ≡ size
    → filled size (appended bytes (new_writer size), ok tt) ≡ ok bytes
filled-full size bytes h =
    let room : size - length bytes ≡ 0 = omega arith in rw room (ap ok (append-nil bytes))

-- A fixed body is what its writer writes.
pub filled-Takes :
    (size : ℕ) (act : Write)
    → size < 4294967296
    → (t : Takes size act) → filled size (act (new_writer size)) ≡ ok t.bytes
unfolding Appends
filled-Takes size act small t =
    ap (filled size) (t.appends (new_writer size) (omega (arith, t.size)) small)
    ∙ filled-full size t.bytes t.size

pub encode_umac_command-packet :
    (out_len : ℕ) (command : UmacCommand) (wdev_id : ℕ) (body : List ℕ)
    → 48 + length body ≤ out_len
    → out_len < 4294967296
    → 36 + length body ≤ 1012
    → encode_umac_command out_len command (wdev_ids wdev_id) body
      ≡ ok (packet command 1 wdev_id body)
unfolding encode_umac_command Appends
encode_umac_command-packet out_len command wdev_id body h small k =
    let inner = header_bytes command 1 wdev_id ++ body in
    let size : length inner ≡ 36 + length body = omega arith in
    let written =
      >>-Appends _ _ _ _ (write_umac_header-Appends command wdev_id) (write_bytes-Appends body)
        (new_writer (36 + length body)) (omega (arith, size)) (omega arith) in
    let full = ap (filled (36 + length body)) written ∙ filled-full (36 + length body) inner size in
    rw (validated_umac_inner_len-fits (length body) k) (
      ap
        (λ o. then_encode o (λ bytes. encode_host_message out_len HostMessageType.umac false bytes))
        full
      ∙ encode_host_message-framed out_len HostMessageType.umac false inner (omega arith) small)
