-- ===== src/Protocol/Message/RoundTrip.antt =====
-- protocol.rs: a host message that is encoded is parsed back.
use Prim.Native.Nat.{◌/◌, ◌%◌, ◌^◌, ℕ, ◌+◌, ◌≤◌, ◌<◌}
use embassy_zephyr_n_rf.Base.Tests.{le→ltb_not}
use embassy_zephyr_n_rf.Base.{
  le_u32, not, ◌==◌, ltb, ap, ◌∙◌, ◌≡◌, refl, List, ◌++◌, Bool, false, ok, arith, length,
  length-append, take, take_append, read_u32, read_u32_lem, slice, slice_lem, u32_bytes,
}
use embassy_zephyr_n_rf.Protocol.Types.{
  ProtocolError, HostMessageType, message_type_value, from_i32,
}
use embassy_zephyr_n_rf.Protocol.Writer.{write_bytes, write_u32}
use embassy_zephyr_n_rf.Protocol.Message.{encode_host_message, parse_host_message, bool_u32}

-- The packed form of a message.
abbrev pub framed : HostMessageType → Bool → List ℕ → List ℕ
framed kind resubmit payload =
    u32_bytes (12 + length payload)
    ++ (u32_bytes (bool_u32 resubmit) ++ (u32_bytes (message_type_value kind) ++ payload))

pub encode_host_message-framed :
    (out_len : ℕ) (kind : HostMessageType) (resubmit : Bool) (payload : List ℕ)
    → 12 + length payload ≤ out_len
    → out_len < 4294967296
    → encode_host_message out_len kind resubmit payload ≡ ok (framed kind resubmit payload)
unfolding encode_host_message write_bytes write_u32
encode_host_message-framed out_len kind resubmit payload h k = ground arith

from_i32-message_type_value :
    (kind : HostMessageType) → from_i32 (message_type_value kind) ≡ ok kind
unfolding from_i32 message_type_value
from_i32-message_type_value kind = ground arith

message_type_value_bound : (kind : HostMessageType) → message_type_value kind < 4294967296
unfolding message_type_value
message_type_value_bound kind = ground arith

bool_u32_bound : (b : Bool) → bool_u32 b < 4294967296
bool_u32_bound b = ground arith

bool_u32_back : (b : Bool) → not (bool_u32 b == 0) ≡ b
bool_u32_back b = ground arith

pub le_u32_back :
    (v : ℕ)
    → v < 4294967296
    → le_u32 (v % 2 ^ 8) (v / 2 ^ 8 % 2 ^ 8) (v / 2 ^ 16 % 2 ^ 8) (v / 2 ^ 24 % 2 ^ 8) ≡ v
le_u32_back v h = omega arith

pub parse_host_message-framed :
    (kind : HostMessageType) (resubmit : Bool) (payload rest : List ℕ)
    → 12 + length payload < 4294967296
    → parse_host_message (framed kind resubmit payload ++ rest)
      ≡ ok record { resubmit = resubmit; message_type = kind; payload = payload }
unfolding parse_host_message
parse_host_message-framed kind resubmit payload rest h =
    let bs = framed kind resubmit payload ++ rest in
    let size : length bs ≡ 12 + length payload + length rest =
      omega (arith, length-append payload rest) in
    let r0 : read_u32 {E = ProtocolError} bs 0 ≡ ok (12 + length payload) =
      read_u32_lem bs 0 (omega arith) ∙ ap ok (le_u32_back (12 + length payload) h) in
    let r4 : read_u32 {E = ProtocolError} bs 4 ≡ ok (bool_u32 resubmit) =
      read_u32_lem bs 4 (omega arith)
      ∙ ap ok (le_u32_back (bool_u32 resubmit) (bool_u32_bound resubmit)) in
    let r8 : read_u32 {E = ProtocolError} bs 8 ≡ ok (message_type_value kind) =
      read_u32_lem bs 8 (omega arith)
      ∙ ap ok (le_u32_back (message_type_value kind) (message_type_value_bound kind)) in
    let whole : slice {E = ProtocolError} bs 12 (12 + length payload) ≡ ok payload =
      slice_lem bs 12 (12 + length payload) (omega arith) (omega arith)
      ∙ ap (λ n. ok (take n (payload ++ rest))) (omega arith)
      ∙ ap ok (take_append payload rest) in
    let long : ltb (length bs) 12 ≡ false = le→ltb_not 12 (length bs) (omega arith) in
    let low : ltb (12 + length payload) 12 ≡ false =
      le→ltb_not 12 (12 + length payload) (omega arith) in
    let room : ltb (length bs) (12 + length payload) ≡ false =
      le→ltb_not (12 + length payload) (length bs) (omega arith) in
    rw
      (long, r0, low, room, r4, r8, from_i32-message_type_value kind, whole, bool_u32_back resubmit)
      refl

-- A host message that fits its buffer is encoded, in twelve bytes more than its payload, and parsing
-- the encoded bytes gives the message back, whatever bytes follow it in the buffer.
pub parse_host_message-encode_host_message :
    (out_len : ℕ) (kind : HostMessageType) (resubmit : Bool) (payload rest : List ℕ)
    → 12 + length payload ≤ out_len
    → out_len < 2 ^ 32
    → (bytes : List ℕ) × (encode_host_message out_len kind resubmit payload ≡ ok bytes)
      × (length bytes ≡ 12 + length payload)
      × (parse_host_message (bytes ++ rest)
          ≡ ok record { resubmit = resubmit; message_type = kind; payload = payload })
parse_host_message-encode_host_message out_len kind resubmit payload rest h k = (
  framed kind resubmit payload,
  encode_host_message-framed out_len kind resubmit payload h k,
  omega arith,
  parse_host_message-framed kind resubmit payload rest (omega arith),
)
