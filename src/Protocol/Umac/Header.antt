-- ===== src/Protocol/Umac/Header.antt =====
-- protocol.rs: a packed UMAC header is parsed back.
use Prim.Native.Nat.{ℕ, ◌+◌, ◌*◌, ◌/◌, ◌%◌, ◌^◌, ◌<◌}
use embassy_zephyr_n_rf.Base.Tests.{le→ltb_not}
use embassy_zephyr_n_rf.Base.{
  ◌≡◌, refl, List, ◌++◌, false, Outcome, ok, err, panic, arith, length, read_u32, read_u64,
  u32_bytes, u64_bytes, le_u32, index,
}
use embassy_zephyr_n_rf.Base.Bytes.{slice_from_lem, index}
use embassy_zephyr_n_rf.Protocol.Types.{
  ProtocolError, HostMessageType, HostMessageRef, UmacHeader, UmacCommand, command_value,
}
use embassy_zephyr_n_rf.Protocol.Message.{parse_host_message}
use embassy_zephyr_n_rf.Protocol.Message.RoundTrip.{framed, parse_host_message-framed, le_u32_back}
use embassy_zephyr_n_rf.Protocol.Umac.{parse_umac_header, parse_umac_event}

-- The header of a command: only the command number and the device are set.
abbrev pub header_bytes : UmacCommand → ℕ → ℕ → List ℕ
header_bytes command valid wdev_id =
    u32_bytes 0
    ++ (u32_bytes 0
        ++ (u32_bytes (command_value command)
            ++ (u32_bytes 0
                ++ (u32_bytes valid ++ (u32_bytes 0 ++ (u32_bytes 0 ++ u64_bytes wdev_id))))))

abbrev pub header_of : UmacCommand → ℕ → ℕ → UmacHeader
header_of command valid wdev_id = record {
  port_id = 0;
  sequence = 0;
  command_event = command_value command;
  result = 0;
  valid_ids = valid;
  ifaceindex = 0;
  wiphy_index = 0;
  wdev_id = wdev_id;
}

command_value_bound : (command : UmacCommand) → command_value command < 60
unfolding command_value
command_value_bound command = ground arith

u64_back :
    (v : ℕ)
    → v < 2 ^ 64
    → le_u32
          (v % 2 ^ 32 % 2 ^ 8)
          (v % 2 ^ 32 / 2 ^ 8 % 2 ^ 8)
          (v % 2 ^ 32 / 2 ^ 16 % 2 ^ 8)
          (v % 2 ^ 32 / 2 ^ 24 % 2 ^ 8)
        + le_u32
            (v / 2 ^ 32 % 2 ^ 32 % 2 ^ 8)
            (v / 2 ^ 32 % 2 ^ 32 / 2 ^ 8 % 2 ^ 8)
            (v / 2 ^ 32 % 2 ^ 32 / 2 ^ 16 % 2 ^ 8)
            (v / 2 ^ 32 % 2 ^ 32 / 2 ^ 24 % 2 ^ 8)
          * 2 ^ 32
      ≡ v
u64_back v h = omega arith

pub parse_umac_header-header_bytes :
    (command : UmacCommand) (valid wdev_id : ℕ) (body : List ℕ)
    → valid < 2 ^ 32
    → wdev_id < 2 ^ 64
    → parse_umac_header (header_bytes command valid wdev_id ++ body)
      ≡ ok (header_of command valid wdev_id)
unfolding parse_umac_header read_u32 read_u64 index
parse_umac_header-header_bytes command valid wdev_id body hv hw = rw (
  le→ltb_not 36 (length (header_bytes command valid wdev_id ++ body)) (omega arith),
  le_u32_back (command_value command) (omega (arith, command_value_bound command)),
  le_u32_back valid hv,
  u64_back wdev_id hw,
)

-- The whole message of a command.
abbrev pub packet : UmacCommand → ℕ → ℕ → List ℕ → List ℕ
packet command valid wdev_id body =
    framed HostMessageType.umac false (header_bytes command valid wdev_id ++ body)

-- What the firmware reads of the start of its buffer: the header and the body.
abbrev pub received : List ℕ → Outcome ProtocolError (UmacHeader × List ℕ)
received bytes = read (parse_host_message bytes)
  where
    read : Outcome ProtocolError HostMessageRef → Outcome ProtocolError (UmacHeader × List ℕ)
    read (ok message) = parse_umac_event message
    read (err e) = err e
    read panic = panic

pub received-packet :
    (command : UmacCommand) (valid wdev_id : ℕ) (body rest : List ℕ)
    → valid < 2 ^ 32
    → wdev_id < 2 ^ 64
    → 48 + length body < 2 ^ 32
    → received (packet command valid wdev_id body ++ rest)
      ≡ ok (header_of command valid wdev_id, body)
unfolding parse_umac_event
received-packet command valid wdev_id body rest hv hw h =
    rw
      (
        parse_host_message-framed HostMessageType.umac false
            (header_bytes command valid wdev_id ++ body) rest (omega arith),
        parse_umac_header-header_bytes command valid wdev_id body hv hw,
        slice_from_lem {E = ProtocolError} (header_bytes command valid wdev_id ++ body) 36
            (omega arith),
      )
      refl
