-- ===== src/Protocol/Message.antt =====
-- protocol.rs: the frame of a host message.
pub mod RoundTrip
use Prim.Native.Nat.{ℕ, ◌+◌}
use embassy_zephyr_n_rf.Base.{
  List, Bool, true, false, not, ltb, ◌||◌, ◌==◌, if◌then◌else◌, Option, some, none, Outcome, ok,
  err, panic, ok_or, reject_if, length, slice, read_u32, usize_mod,
}
use embassy_zephyr_n_rf.Base.Results.{◌>>=◌, ◌>>◌}
use embassy_zephyr_n_rf.Base.Actions.{Action, continue_with}
use embassy_zephyr_n_rf.Protocol.Types.{
  ProtocolError, HostMessageType, HostMessageRef, message_type_value, from_i32,
}
use embassy_zephyr_n_rf.Protocol.Writer.{Writer, new_writer, write_bytes, write_u32}

abbrev pub host_message_header_len : ℕ
host_message_header_len = 12

abbrev pub bool_u32 : Bool → ℕ
bool_u32 value = if value then 1 else 0

-- A `usize` is never above `u32::MAX`, so the source's last test cannot fail.
unfoldable pub validated_host_message_len : ℕ → ℕ → Outcome ProtocolError ℕ
validated_host_message_len out_len payload_len = do
  total ←
      ok_or
        (if ltb (host_message_header_len + payload_len) usize_mod
          then some (host_message_header_len + payload_len)
          else none)
        ProtocolError.invalid_length
  reject_if (ltb out_len total) ProtocolError.buffer_too_small
  reject_if (ltb 4294967295 total) ProtocolError.buffer_too_small
  ok total

abbrev pub after :
    Action Writer ProtocolError (Unit {0})
    → Writer × Outcome ProtocolError (Unit {0})
    → Writer × Outcome ProtocolError (Unit {0})
after next = continue_with (λ _. next)

abbrev pub contents : Writer × Outcome ProtocolError (Unit {0}) → Outcome ProtocolError (List ℕ)
contents (w, ok _) = ok w.written
contents (w, err e) = err e
contents (w, panic) = panic

-- The bytes at the start of `out`; the source returns their number.
unfoldable pub encode_host_message :
    ℕ → HostMessageType → Bool → List ℕ → Outcome ProtocolError (List ℕ)
unfolding validated_host_message_len
encode_host_message out_len message_type resubmit payload = do
  total ← validated_host_message_len out_len (length payload)
  contents (
      after (write_bytes payload) (
        after (write_u32 (message_type_value message_type))
          (after (write_u32 (bool_u32 resubmit)) (write_u32 total (new_writer out_len)))))

unfoldable pub parse_host_message : List ℕ → Outcome ProtocolError HostMessageRef
parse_host_message bytes = do
  reject_if (ltb (length bytes) host_message_header_len) ProtocolError.invalid_length
  declared ← read_u32 bytes 0
  reject_if (ltb declared host_message_header_len || ltb (length bytes) declared)
      ProtocolError.invalid_length
  resubmit ← read_u32 bytes 4
  kind ← read_u32 bytes 8
  message_type ← from_i32 kind
  payload ← slice bytes host_message_header_len declared
  ok record { resubmit = not (resubmit == 0); message_type = message_type; payload = payload }
