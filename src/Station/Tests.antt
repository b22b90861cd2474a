-- ===== src/Station/Tests.antt =====
-- Runs of the controller at concrete inputs.
use Prim.Native.Nat.{ℕ}
use embassy_zephyr_n_rf.Data.Types.{DataEvent}
use embassy_zephyr_n_rf.Base.{
  ◌≡◌, refl, List, [], ◌∷◌, none, some, true, false, ok, arith, replicate,
}
use embassy_zephyr_n_rf.Base.Bytes.{index, read_u16}
use embassy_zephyr_n_rf.Protocol.Types.{UmacHeader}
use embassy_zephyr_n_rf.Control.Types.{
  MlmeEvent, ControlEvent, AuthenticationType, AuthenticationRequest, AssociationRequest,
}
use embassy_zephyr_n_rf.Station.Types.{StationState, StationController}
use embassy_zephyr_n_rf.Station.Core.{
  new, controlled_port_open, timeout_for, transition, check_header, check_peer, fail,
  refresh_connected, require, clear_connection, enter_fault, begin_recovery, recovery_complete,
}
use embassy_zephyr_n_rf.Base.{is_some, bytes_eq}
use embassy_zephyr_n_rf.Station.Events.{
  control_event_header, is_status_control_event, is_scan_control_event, dispatch_control_event,
  handle_control_event, handle_status_control_event, handle_progress_control_event,
  handle_mlme_control_event, handle_interface_state, handle_authentication, handle_association,
  mlme_frame_address, mlme_status, handle_data_event, handle_carrier_on, handle_carrier_off,
  require_data_interface, note_carrier, lose_carrier,
}
use embassy_zephyr_n_rf.Station.Port.{
  CommandPort, create_interface_call, bring_up_call, authenticate_call, associate_call,
}
use embassy_zephyr_n_rf.Station.Commands.{
  issue, create_interface, bring_up, authenticate, associate, after_guard, require_peer,
  submit_association, submit,
}
use embassy_zephyr_n_rf.Station.Deadlines.{
  TimedOut, advance_all, deadline_reached, deadline_pending,
}
use embassy_zephyr_n_rf.Station.FailClosed.{carrier_on_opens, carrier_off_shuts}
use embassy_zephyr_n_rf.Station.Invariant.{Inv, new-Inv}
use embassy_zephyr_n_rf.Station.Runs.{
  run-Inv, Input, control, data_event, command, recovery_begin, recovery_end, step, run, GrantedIn,
  open_port_granted, carrier_lost_regranted,
}

-- A device that accepts every message.
abbrev accepting : CommandPort
accepting = record {
  Device = ℕ;
  DeviceError = ℕ;
  encode = λ _. ok [];
  send_control_reliable = λ _ d. (d, ok tt);
}

abbrev header : UmacHeader
header = record {
  port_id = 0;
  sequence = 0;
  command_event = 0;
  result = 0;
  valid_ids = 0;
  ifaceindex = 0;
  wiphy_index = 0;
  wdev_id = 0;
}

-- A successful reply of the peer 00:00:00:00:00:00.
abbrev reply : MlmeEvent
reply = record {
  header = header;
  valid_fields = 1;
  frequency_mhz = 2412;
  signal_dbm = 0;
  flags = 0;
  cookie = 0;
  bssid = replicate 6 0;
  frame = replicate 32 0;
  request_information_elements = [];
}

abbrev authentication_request : AuthenticationRequest
authentication_request = record {
  frequency_mhz = 2412;
  bssid = replicate 6 0;
  ssid = [];
  auth_type = AuthenticationType.open_system;
  local_state_change = false;
  information_elements = [];
  sae_data = [];
  key = none;
  bss = record {
    scan_width = 0;
    signal_dbm = 0;
    from_beacon = false;
    information_elements = [];
    capability = 0;
    beacon_interval = 0;
    tsf = 0;
  };
}

abbrev open_association : AssociationRequest
open_association = record {
  frequency_mhz = 2412;
  bssid = replicate 6 0;
  ssid = [];
  security = none;
  background_scan_period_s = 0;
  previous_bssid = none;
  bss_max_idle_s = 0;
}

-- The connection with an open network.
abbrev connection : List Input
connection =
    command (create_interface_call [] [])
    ∷ command bring_up_call
    ∷ control (ControlEvent.interface_state header 0)
    ∷ command (authenticate_call authentication_request)
    ∷ control (ControlEvent.authentication reply)
    ∷ command (associate_call open_association)
    ∷ control (ControlEvent.association reply)
    ∷ data_event (DataEvent.carrier_on 0)
    ∷ []

connection_opens : controlled_port_open (run accepting connection (new 0 0 0, 0)).0 ≡ true
unfolding run step new controlled_port_open issue create_interface bring_up authenticate associate
    after_guard require_peer submit_association submit require transition timeout_for fail bytes_eq
    handle_control_event control_event_header check_header check_peer dispatch_control_event
    is_status_control_event is_scan_control_event handle_status_control_event
    handle_progress_control_event handle_mlme_control_event handle_interface_state
    handle_authentication handle_association mlme_frame_address mlme_status read_u16 index
    handle_data_event handle_carrier_on require_data_interface note_carrier refresh_connected
connection_opens = refl

open_port_granted_example :
    (is_some (run accepting connection (new 0 0 0, 0)).0.peer ≡ true)
    × GrantedIn accepting connection (new 0 0 0, 0)
open_port_granted_example = open_port_granted accepting connection 0 0 0 0 connection_opens

run-Inv_example : Inv (run accepting connection (new 0 0 0, 0)).0
run-Inv_example = run-Inv accepting connection (new 0 0 0, 0) (new-Inv 0 0 0)

-- A scan that started at time 0.
abbrev scanning : StationController
scanning = record (new 0 0 0) { state = StationState.scanning; remaining_ms = some 30000 }

deadline_reached_example : TimedOut scanning (advance_all (20000 ∷ 10000 ∷ []) scanning)
unfolding new
deadline_reached_example =
    deadline_reached (20000 ∷ 10000 ∷ []) scanning 30000 refl (omega arith) (omega arith)

deadline_pending_example :
    advance_all (20000 ∷ 9000 ∷ []) scanning ≡ record scanning { remaining_ms = some 1000 }
unfolding new
deadline_pending_example = deadline_pending (20000 ∷ 9000 ∷ []) scanning 30000 refl (omega arith)

-- A fault that kept its authorization.
abbrev faulted : StationController
faulted = record (new 0 0 7) { state = StationState.fault; controlled_port_authorized = true }

carrier_on_opens_example :
    ((handle_carrier_on {D = ℕ} 7 faulted).1 ≡ ok tt)
    × (controlled_port_open (handle_carrier_on {D = ℕ} 7 faulted).0 ≡ true)
unfolding new
carrier_on_opens_example = carrier_on_opens ℕ 7 faulted refl

abbrev online : StationController
online = record (new 0 0 7) {
  state = StationState.connected;
  controlled_port_authorized = true;
  carrier_on = true;
  peer = some (replicate 6 0);
}

carrier_off_shuts_example : controlled_port_open (handle_carrier_off {D = ℕ} 8 online).0 ≡ false
unfolding new
carrier_off_shuts_example = carrier_off_shuts ℕ 8 online

-- A controller of device 0 that is connected.
abbrev connected : StationController
connected = record (new 0 0 0) {
  state = StationState.connected;
  controlled_port_authorized = true;
  carrier_on = true;
  peer = some (replicate 6 0);
}

connected-Inv : Inv connected
unfolding new timeout_for
connected-Inv = record {
  authorized_peer = λ a. refl;
  connected_authorized = λ a. refl;
  return_authorized = λ a. ground arith;
  authorizing_peer = λ a. refl;
  return_state = refl;
  armed = tt;
}

-- The carrier is lost, the device recovers, and the station connects again.
abbrev reconnection : List Input
reconnection = recovery_begin ∷ recovery_end ∷ connection

reconnection_opens :
    controlled_port_open
      (run accepting
        (data_event (DataEvent.carrier_off connected.wdev_id) ∷ reconnection)
        (connected, 0)).0
    ≡ true
unfolding run step new controlled_port_open issue create_interface bring_up authenticate associate
    after_guard require_peer submit_association submit require transition timeout_for fail bytes_eq
    handle_control_event control_event_header check_header check_peer dispatch_control_event
    is_status_control_event is_scan_control_event handle_status_control_event
    handle_progress_control_event handle_mlme_control_event handle_interface_state
    handle_authentication handle_association mlme_frame_address mlme_status read_u16 index
    handle_data_event handle_carrier_on handle_carrier_off lose_carrier clear_connection enter_fault
    require_data_interface note_carrier refresh_connected begin_recovery recovery_complete
reconnection_opens = refl

carrier_lost_regranted_example :
    (is_some
        (run accepting
          (data_event (DataEvent.carrier_off connected.wdev_id) ∷ reconnection)
          (connected, 0)).0.peer
      ≡ true)
    × GrantedIn accepting reconnection
        (step accepting (data_event (DataEvent.carrier_off connected.wdev_id)) (connected, 0))
carrier_lost_regranted_example =
    carrier_lost_regranted accepting reconnection connected 0 connected-Inv refl reconnection_opens
