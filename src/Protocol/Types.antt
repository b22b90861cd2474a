-- ===== src/Protocol/Types.antt =====
-- protocol.rs: errors, message categories, headers and command numbers.
use Prim.Native.Nat.{ℕ}
use embassy_zephyr_n_rf.Base.{List, Bool, Outcome, ok, err, ◌==◌, if◌then◌else◌}

pub data ProtocolError : Type 0 where
  buffer_too_small invalid_length : ProtocolError
  invalid_value : ℕ → ProtocolError
  limit_exceeded wrong_message_type : ProtocolError

pub data HostMessageType : Type 0 where
  system supplicant data_path umac : HostMessageType

-- `message_type as i32`
unfoldable pub message_type_value : HostMessageType → ℕ
message_type_value HostMessageType.system = 0
message_type_value HostMessageType.supplicant = 1
message_type_value HostMessageType.data_path = 2
message_type_value HostMessageType.umac = 3

unfoldable pub from_i32 : ℕ → Outcome ProtocolError HostMessageType
from_i32 value =
    if value == 0
    then ok HostMessageType.system
    else if value == 1
    then ok HostMessageType.supplicant
    else if value == 2
    then ok HostMessageType.data_path
    else if value == 3
    then ok HostMessageType.umac
    else err (ProtocolError.invalid_value value)

pub record HostMessageRef : Type 0 where
  pub resubmit : Bool
  pub message_type : HostMessageType
  pub payload : List ℕ

pub record UmacHeader : Type 0 where
  pub port_id : ℕ
  pub sequence : ℕ
  pub command_event : ℕ
  pub result : ℕ
  pub valid_ids : ℕ
  pub ifaceindex : ℕ
  pub wiphy_index : ℕ
  pub wdev_id : ℕ

pub data UmacCommand : Type 0 where
  trigger_scan : UmacCommand
  get_scan_results : UmacCommand
  authenticate : UmacCommand
  associate : UmacCommand
  deauthenticate : UmacCommand
  set_wiphy : UmacCommand
  new_key : UmacCommand
  delete_key : UmacCommand
  set_key : UmacCommand
  new_interface : UmacCommand
  set_interface : UmacCommand
  delete_interface : UmacCommand
  set_interface_flags : UmacCommand
  new_station : UmacCommand
  delete_station : UmacCommand
  set_station : UmacCommand
  get_station : UmacCommand
  register_frame : UmacCommand
  frame : UmacCommand
  set_power_save : UmacCommand
  get_channel : UmacCommand
  get_tx_power : UmacCommand
  get_interface : UmacCommand
  get_wiphy : UmacCommand
  get_interface_hardware_address : UmacCommand
  set_interface_hardware_address : UmacCommand
  get_regulatory : UmacCommand
  request_set_regulatory : UmacCommand
  configure_uapsd : UmacCommand
  configure_twt : UmacCommand
  teardown_twt : UmacCommand
  abort_scan : UmacCommand
  multicast_filter : UmacCommand
  change_mac_address : UmacCommand
  set_power_save_timeout : UmacCommand
  get_connection_info : UmacCommand
  get_power_save_info : UmacCommand
  set_listen_interval : UmacCommand
  configure_extended_power_save : UmacCommand
  configure_quiet_period : UmacCommand
  power_save_exit_strategy : UmacCommand

-- `command as u32`
unfoldable pub command_value : UmacCommand → ℕ
command_value UmacCommand.trigger_scan = 0
command_value UmacCommand.get_scan_results = 1
command_value UmacCommand.authenticate = 2
command_value UmacCommand.associate = 3
command_value UmacCommand.deauthenticate = 4
command_value UmacCommand.set_wiphy = 5
command_value UmacCommand.new_key = 6
command_value UmacCommand.delete_key = 7
command_value UmacCommand.set_key = 8
command_value UmacCommand.new_interface = 15
command_value UmacCommand.set_interface = 16
command_value UmacCommand.delete_interface = 17
command_value UmacCommand.set_interface_flags = 18
command_value UmacCommand.new_station = 19
command_value UmacCommand.delete_station = 20
command_value UmacCommand.set_station = 21
command_value UmacCommand.get_station = 22
command_value UmacCommand.register_frame = 29
command_value UmacCommand.frame = 30
command_value UmacCommand.set_power_save = 33
command_value UmacCommand.get_channel = 38
command_value UmacCommand.get_tx_power = 39
command_value UmacCommand.get_interface = 40
command_value UmacCommand.get_wiphy = 41
command_value UmacCommand.get_interface_hardware_address = 42
command_value UmacCommand.set_interface_hardware_address = 43
command_value UmacCommand.get_regulatory = 44
command_value UmacCommand.request_set_regulatory = 46
command_value UmacCommand.configure_uapsd = 47
command_value UmacCommand.configure_twt = 48
command_value UmacCommand.teardown_twt = 49
command_value UmacCommand.abort_scan = 50
command_value UmacCommand.multicast_filter = 51
command_value UmacCommand.change_mac_address = 52
command_value UmacCommand.set_power_save_timeout = 53
command_value UmacCommand.get_connection_info = 54
command_value UmacCommand.get_power_save_info = 55
command_value UmacCommand.set_listen_interval = 56
command_value UmacCommand.configure_extended_power_save = 57
command_value UmacCommand.configure_quiet_period = 58
command_value UmacCommand.power_save_exit_strategy = 59

-- One hardware queue: its push and its pop register.
pub record Hpq : Type 0 where
  pub enqueue_address : ℕ
  pub dequeue_address : ℕ

pub record HpqmInfo : Type 0 where
  pub event_busy : Hpq
  pub event_available : Hpq
  pub command_busy : Hpq
  pub command_available : Hpq
  pub rx_buffer_busy : List Hpq

pub data ScanReason : Type 0 where
  display connect : ScanReason

pub record ScanRequest : Type 0 where
  pub reason : ScanReason
  pub passive : Bool
  pub ssids : List (List ℕ)
  pub ssid_count : ℕ
  pub bands : ℕ
  pub no_cck : Bool
  pub information_elements : List ℕ
  pub mac_address : List ℕ
  pub active_dwell_ms : ℕ
  pub passive_dwell_ms : ℕ
  pub skip_local_admin_macs : Bool
  pub center_frequencies_mhz : List ℕ
