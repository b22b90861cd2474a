-- ===== src/Protocol/DataHeader.antt =====
-- protocol.rs: the header of the data path.
use Prim.Native.Nat.{ℕ}
use embassy_zephyr_n_rf.Base.{List, ltb, Outcome, ok, reject_if, length, read_u32, ◌>>=◌, ◌>>◌}
use embassy_zephyr_n_rf.Protocol.Types.{ProtocolError}

pub data DataCommand : Type 0 where
  management_buffer_config transmit_buffer transmit_done receive_buffer : DataCommand
  carrier_on carrier_off power_management_mode power_save_get_frames : DataCommand

-- `command as u32`
unfoldable pub data_command_value : DataCommand → ℕ
data_command_value DataCommand.management_buffer_config = 0
data_command_value DataCommand.transmit_buffer = 1
data_command_value DataCommand.transmit_done = 2
data_command_value DataCommand.receive_buffer = 3
data_command_value DataCommand.carrier_on = 4
data_command_value DataCommand.carrier_off = 5
data_command_value DataCommand.power_management_mode = 6
data_command_value DataCommand.power_save_get_frames = 7

pub record DataHeader : Type 0 where
  pub command : ℕ
  pub len : ℕ

-- `DataHeader::parse`
unfoldable pub parse_data_header : List ℕ → Outcome ProtocolError DataHeader
parse_data_header bytes = do
  reject_if (ltb (length bytes) 8) ProtocolError.invalid_length
  command ← read_u32 bytes 0
  len ← read_u32 bytes 4
  ok record { command = command; len = len }
