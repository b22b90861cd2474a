-- ===== src/Protocol/Umac.antt =====
-- protocol.rs: the UMAC header, its parser, and the raw UMAC command.
pub mod Header
use Prim.Native.Nat.{ℕ, ◌-◌}
use embassy_zephyr_n_rf.Base.{
  List, Bool, true, false, not, ltb, Option, Outcome, ok, ok_or, reject_if, checked_add, length,
  read_u32, read_u64, ◌>>=◌, ◌>>◌,
}
use embassy_zephyr_n_rf.Base.Bytes.{slice_from}
use embassy_zephyr_n_rf.Protocol.Types.{ProtocolError, HostMessageType, HostMessageRef, UmacHeader}

abbrev pub max_umac_inner_len : ℕ
max_umac_inner_len = 1024 - 12

-- `UmacHeader::parse`
unfoldable pub parse_umac_header : List ℕ → Outcome ProtocolError UmacHeader
parse_umac_header bytes = do
  reject_if (ltb (length bytes) 36) ProtocolError.invalid_length
  port_id ← read_u32 bytes 0
  sequence ← read_u32 bytes 4
  command_event ← read_u32 bytes 8
  result ← read_u32 bytes 12
  valid_ids ← read_u32 bytes 16
  ifaceindex ← read_u32 bytes 20
  wiphy_index ← read_u32 bytes 24
  wdev_id ← read_u64 bytes 28
  ok record {
    port_id = port_id;
    sequence = sequence;
    command_event = command_event;
    result = result;
    valid_ids = valid_ids;
    ifaceindex = ifaceindex;
    wiphy_index = wiphy_index;
    wdev_id = wdev_id;
  }

abbrev pub is_umac : HostMessageType → Bool
is_umac HostMessageType.umac = true
is_umac _ = false

-- The header, and the body behind it.
unfoldable pub parse_umac_event : HostMessageRef → Outcome ProtocolError (UmacHeader × List ℕ)
parse_umac_event message = do
  reject_if (not (is_umac message.message_type)) ProtocolError.wrong_message_type
  header ← parse_umac_header message.payload
  body ← slice_from message.payload 36
  ok (header, body)

pub record InterfaceIds : Type 0 where
  pub ifaceindex : Option ℕ
  pub wiphy_index : Option ℕ
  pub wdev_id : Option ℕ

unfoldable pub validated_umac_inner_len : ℕ → Outcome ProtocolError ℕ
validated_umac_inner_len body_len = do
  inner_len ← ok_or (checked_add 36 body_len) ProtocolError.invalid_length
  reject_if (ltb max_umac_inner_len inner_len) ProtocolError.limit_exceeded
  ok inner_len
