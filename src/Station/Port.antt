-- ===== src/Station/Port.antt =====
-- station.rs: what the controller asks of the encoders and of the device, and its own commands.
use Prim.Native.Nat.{ℕ}
use embassy_zephyr_n_rf.Base.{List, Option, Bool, Outcome}
use embassy_zephyr_n_rf.Protocol.Types.{ProtocolError, UmacCommand, ScanReason, ScanRequest}
use embassy_zephyr_n_rf.Control.Types.{
  KeyConfig, PowerSaveState, AuthenticationRequest, AssociationRequest,
}

-- The encoder calls of the commands, with their arguments but for the buffer.
pub data Message : Type 0 where
  new_interface_message : ℕ → List ℕ → List ℕ → Message
  set_regulatory_message : ℕ → List ℕ → ℕ → Bool → Message
  interface_flags_message : ℕ → Bool → ℕ → Message
  scan_message : ℕ → ScanRequest → Message
  get_scan_results_message : ℕ → ScanReason → Message
  authenticate_message : ℕ → AuthenticationRequest → Message
  associate_message : ℕ → AssociationRequest → Message
  key_message : ℕ → UmacCommand → Option (List ℕ) → KeyConfig → Message
  set_key_message : ℕ → KeyConfig → Message
  station_authorized_message : ℕ → List ℕ → Bool → Message
  power_save_message : ℕ → PowerSaveState → Message
  power_save_timeout_message : ℕ → ℕ → Message
  deauthenticate_message : ℕ → List ℕ → ℕ → Bool → Message

-- What the controller calls: the encoders of control.rs and protocol.rs, and
-- `Device::send_control_reliable`.
pub record CommandPort : Type 1 where
  pub Device : Type 0
  pub DeviceError : Type 0
  pub encode : Message → Outcome ProtocolError (List ℕ)
  pub send_control_reliable : List ℕ → Device → Device × Outcome DeviceError (Unit {0})

-- The commands of the controller, as one type.
pub data Call : Type 0 where
  create_interface_call : List ℕ → List ℕ → Call
  set_regulatory_call : List ℕ → ℕ → Bool → Call
  bring_up_call bring_down_call authorize_call : Call
  start_scan_call : ScanRequest → Call
  request_scan_results_call : ScanReason → Call
  authenticate_call : AuthenticationRequest → Call
  associate_call : AssociationRequest → Call
  key_command_call : UmacCommand → KeyConfig → Call
  set_key_call : KeyConfig → Call
  set_power_save_call : PowerSaveState → Call
  set_power_save_timeout_call disconnect_call : ℕ → Call
