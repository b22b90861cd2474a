-- ===== src/Station/Types.antt =====
-- station.rs: states, deadlines, faults, errors, and the controller.
use Prim.Native.Nat.{ℕ}
use embassy_zephyr_n_rf.Base.{List, Option, Bool, ◌==◌}
use embassy_zephyr_n_rf.Protocol.Types.{ProtocolError, UmacCommand}

pub data StationState : Type 0 where
  down interface_create_pending idle regulatory_pending interface_up_pending : StationState
  scanning scan_complete reading_scan_results authenticating authenticated : StationState
  associating securing authorizing awaiting_carrier connected : StationState
  power_save_pending disconnecting interface_down_pending recovering fault : StationState

-- `state as usize`
abbrev pub state_value : StationState → ℕ
state_value StationState.down = 0
state_value StationState.interface_create_pending = 1
state_value StationState.idle = 2
state_value StationState.regulatory_pending = 3
state_value StationState.interface_up_pending = 4
state_value StationState.scanning = 5
state_value StationState.scan_complete = 6
state_value StationState.reading_scan_results = 7
state_value StationState.authenticating = 8
state_value StationState.authenticated = 9
state_value StationState.associating = 10
state_value StationState.securing = 11
state_value StationState.authorizing = 12
state_value StationState.awaiting_carrier = 13
state_value StationState.connected = 14
state_value StationState.power_save_pending = 15
state_value StationState.disconnecting = 16
state_value StationState.interface_down_pending = 17
state_value StationState.recovering = 18
state_value StationState.fault = 19

-- the derived `==`
abbrev pub state_eq : StationState → StationState → Bool
state_eq a b = state_value a == state_value b

pub record StationTimeouts : Type 0 where
  pub regulatory_ms : ℕ
  pub interface_ms : ℕ
  pub scan_ms : ℕ
  pub scan_complete_ms : ℕ
  pub scan_results_ms : ℕ
  pub authentication_ms : ℕ
  pub authenticated_ms : ℕ
  pub association_ms : ℕ
  pub key_exchange_ms : ℕ
  pub authorization_ms : ℕ
  pub carrier_ms : ℕ
  pub power_save_ms : ℕ
  pub disconnect_ms : ℕ

abbrev pub default_timeouts : StationTimeouts
default_timeouts = record {
  regulatory_ms = 5000;
  interface_ms = 5000;
  scan_ms = 30000;
  scan_complete_ms = 10000;
  scan_results_ms = 10000;
  authentication_ms = 5000;
  authenticated_ms = 10000;
  association_ms = 20000;
  key_exchange_ms = 10000;
  authorization_ms = 5000;
  carrier_ms = 5000;
  power_save_ms = 5000;
  disconnect_ms = 5000;
}

pub data StationFault : Type 0 where
  command_rejected : ℕ → ℕ → StationFault
  authentication_failed : ℕ → StationFault
  association_failed : ℕ → StationFault
  mlme_timeout peer_mismatch : StationFault
  interface_mismatch : ℕ → ℕ → ℕ → ℕ → ℕ → StationFault
  unexpected_event carrier_lost : StationFault
  timeout : StationState → StationFault

-- `D` is the error type of the device below.
pub data StationError (D : Type 0) : Type 0 where
  device : D → StationError D
  protocol : ProtocolError → StationError D
  invalid_state : StationState → StationState → StationError D
  interface_already_created interface_not_created : StationError D
  faulted : StationFault → StationError D

-- The scratch array `command` is left out: it only carries one call's encoded bytes to the device.
pub record StationController : Type 0 where
  pub ifaceindex : ℕ
  pub firmware_index : ℕ
  pub wdev_id : ℕ
  pub state : StationState
  pub last_fault : Option StationFault
  pub interface_created : Bool
  pub peer : Option (List ℕ)
  pub secure_connection : Bool
  pub controlled_port_authorized : Bool
  pub carrier_on : Bool
  pub pending_command : Option UmacCommand
  pub pending_return_state : Option StationState
  pub timeouts : StationTimeouts
  pub remaining_ms : Option ℕ
