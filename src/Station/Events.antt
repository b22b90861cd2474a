-- ===== src/Station/Events.antt =====
-- station.rs: the control events of the firmware, dispatched to the handlers of the children.
pub mod Views
pub mod Mlme
pub mod Status
pub mod Carrier
unfoldable pub use Views.*
unfoldable pub use Mlme.*
unfoldable pub use Status.*
unfoldable pub use Carrier.*
use Prim.Native.Nat.{ℕ, ◌+◌, ◌%◌, ◌^◌}
use embassy_zephyr_n_rf.Base.{
  inr, ==_iff, inl, Bool-cases, ◌≢◌, ◌⊎◌, ◌≡◌, List, Option, none, some, Bool, true, false, not,
  ◌&&◌, ◌||◌, leb, ltb, ◌==◌, if◌then◌else◌, Outcome, ok, err, length, take, drop, read_u16,
}
use embassy_zephyr_n_rf.Protocol.Types.{UmacHeader}
use embassy_zephyr_n_rf.Control.Types.{MlmeEvent, ControlEvent}
use embassy_zephyr_n_rf.Station.Types.{
  StationState, state_eq, StationFault, StationError, StationController,
}
use embassy_zephyr_n_rf.Station.Core.{
  enter_fault, Method, ◌>>=◌, ◌>>◌, return, modify, is_command, transition, clear_connection, fail,
  refresh_connected, check_peer, check_header,
}
use embassy_zephyr_n_rf.Base.{is_none}

-- `UmacEvent::NewInterface` is 281.
unfoldable pub handle_other_control_event : {D : Type 0} → ControlEvent → Method D (Unit {0})
handle_other_control_event (ControlEvent.other header _) =
    if header.command_event == 281 then handle_interface_created header else return tt
handle_other_control_event _ = fail StationFault.unexpected_event

unfoldable pub handle_status_control_event : {D : Type 0} → ControlEvent → Method D (Unit {0})
handle_status_control_event (ControlEvent.other header body) =
    handle_other_control_event (ControlEvent.other header body)
handle_status_control_event (ControlEvent.command_status _ command status) =
    handle_command_status command status
handle_status_control_event (ControlEvent.interface_state _ status) = handle_interface_state status
handle_status_control_event (ControlEvent.regulatory_change _ _) = handle_regulatory_change
handle_status_control_event _ = fail StationFault.unexpected_event

unfoldable pub handle_scan_control_event : {D : Type 0} → ControlEvent → Method D (Unit {0})
handle_scan_control_event (ControlEvent.scan_done _ status _) = handle_scan_done status
handle_scan_control_event (ControlEvent.scan_result result) =
    handle_scan_result result.header.sequence
handle_scan_control_event _ = fail StationFault.unexpected_event

unfoldable pub handle_mlme_control_event : {D : Type 0} → ControlEvent → Method D (Unit {0})
handle_mlme_control_event (ControlEvent.authentication event) = handle_authentication event
handle_mlme_control_event (ControlEvent.association event) = handle_association event
handle_mlme_control_event (ControlEvent.deauthentication event) = handle_disconnect_event event
handle_mlme_control_event (ControlEvent.disassociation event) = handle_disconnect_event event
handle_mlme_control_event _ = fail StationFault.unexpected_event

unfoldable pub handle_progress_control_event : {D : Type 0} → ControlEvent → Method D (Unit {0})
handle_progress_control_event event =
    if is_scan_control_event event
    then handle_scan_control_event event
    else handle_mlme_control_event event

unfoldable pub dispatch_control_event : {D : Type 0} → ControlEvent → Method D (Unit {0})
dispatch_control_event event =
    if is_status_control_event event
    then handle_status_control_event event
    else handle_progress_control_event event

unfoldable pub handle_control_event : {D : Type 0} → ControlEvent → Method D (Unit {0})
handle_control_event event = do
  check_header (control_event_header event)
  dispatch_control_event event
