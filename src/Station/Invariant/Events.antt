-- ===== src/Station/Invariant/Events.antt =====
-- Every firmware event keeps the invariant of the controller.
use Prim.Native.Nat.{ℕ}
use embassy_zephyr_n_rf.Data.Types.{DataEvent}
use embassy_zephyr_n_rf.Base.{List, Outcome, arith, if_both, Bool-cases, inl, inr, ◌==◌}
use embassy_zephyr_n_rf.Protocol.Types.{UmacHeader}
use embassy_zephyr_n_rf.Control.Types.{MlmeEvent, ControlEvent}
use embassy_zephyr_n_rf.Station.Types.{StationError, StationController}
use embassy_zephyr_n_rf.Station.Core.{check_header, >>-keeps}
use embassy_zephyr_n_rf.Station.Events.{
  control_event_header, is_status_control_event, is_scan_control_event, note_carrier,
  is_default_interface_status, validate_pending_command, command_accepted, default_interface_reply,
  pending_reply, require_data_interface, lose_carrier, dispatch_control_event,
  handle_interface_state, handle_scan_done, handle_scan_result, handle_authentication,
  handle_association, handle_disconnect_event, handle_regulatory_change, handle_interface_created,
  handle_command_status, handle_carrier_on, handle_carrier_off, handle_other_control_event,
  handle_status_control_event, handle_scan_control_event, handle_mlme_control_event,
  handle_progress_control_event, handle_control_event, handle_data_event,
}
use embassy_zephyr_n_rf.Station.Invariant.{Inv}

module _ (D : Type 0) where
  check_header-Inv :
      (header : UmacHeader) (c : StationController) → Inv c → Inv (check_header {D = D} header c).0
  unfolding check_header
  check_header-Inv header c v = ground arith

  handle_scan_done-Inv :
      (status : ℕ) (c : StationController) → Inv c → Inv (handle_scan_done {D = D} status c).0
  unfolding handle_scan_done
  handle_scan_done-Inv status c v = ground arith

  handle_scan_result-Inv :
      (sequence : ℕ) (c : StationController) → Inv c → Inv (handle_scan_result {D = D} sequence c).0
  unfolding handle_scan_result
  handle_scan_result-Inv sequence c v = ground arith

  handle_interface_state-Inv :
      (status : ℕ) (c : StationController) → Inv c → Inv (handle_interface_state {D = D} status c).0
  unfolding handle_interface_state
  handle_interface_state-Inv status c v = ground arith

  handle_authentication-Inv :
      (event : MlmeEvent) (c : StationController)
      → Inv c
      → Inv (handle_authentication {D = D} event c).0
  unfolding handle_authentication
  handle_authentication-Inv event c v = ground arith

  handle_association-Inv :
      (event : MlmeEvent) (c : StationController)
      → Inv c
      → Inv (handle_association {D = D} event c).0
  unfolding handle_association
  handle_association-Inv event c v = ground arith

  handle_disconnect_event-Inv :
      (event : MlmeEvent) (c : StationController)
      → Inv c
      → Inv (handle_disconnect_event {D = D} event c).0
  unfolding handle_disconnect_event
  handle_disconnect_event-Inv event c v = ground arith

  handle_regulatory_change-Inv :
      (c : StationController) → Inv c → Inv (handle_regulatory_change {D = D} c).0
  unfolding handle_regulatory_change
  handle_regulatory_change-Inv c v = ground arith

  handle_interface_created-Inv :
      (header : UmacHeader) (c : StationController)
      → Inv c
      → Inv (handle_interface_created {D = D} header c).0
  unfolding handle_interface_created
  handle_interface_created-Inv header c v = ground arith

  validate_pending_command-Inv :
      (command status : ℕ) (c : StationController)
      → Inv c
      → Inv (validate_pending_command {D = D} command status c).0
  unfolding validate_pending_command
  validate_pending_command-Inv command status c v = ground arith

  command_accepted-Inv :
      (command : ℕ) (c : StationController) → Inv c → Inv (command_accepted {D = D} command c).0
  unfolding command_accepted
  command_accepted-Inv command c v = ground arith

  default_interface_reply-Inv :
      (command status : ℕ) (c : StationController)
      → Inv c
      → Inv (default_interface_reply {D = D} command status c).0
  unfolding default_interface_reply
  default_interface_reply-Inv command status c v = ground arith

  require_data_interface-Inv :
      (wdev_id : ℕ) (c : StationController)
      → Inv c
      → Inv (require_data_interface {D = D} wdev_id c).0
  unfolding require_data_interface
  require_data_interface-Inv wdev_id c v = ground arith

  note_carrier-Inv : (c : StationController) → Inv c → Inv (note_carrier {D = D} c).0
  unfolding note_carrier
  note_carrier-Inv c v = ground arith

  lose_carrier-Inv : (c : StationController) → Inv c → Inv (lose_carrier {D = D} c).0
  unfolding lose_carrier
  lose_carrier-Inv c v = ground arith

  handle_command_status-Inv :
      (command status : ℕ) (c : StationController)
      → Inv c
      → Inv (handle_command_status {D = D} command status c).0
  unfolding handle_command_status pending_reply
  handle_command_status-Inv command status c v =
      if_both {A = StationController × Outcome (StationError D) (Unit {0})} (λ r. Inv r.0)
        (is_default_interface_status command c) (default_interface_reply-Inv command status c v)
        (>>-keeps Inv (validate_pending_command command status) (command_accepted command) c
          (validate_pending_command-Inv command status c v) (command_accepted-Inv command))

  handle_carrier_on-Inv :
      (wdev_id : ℕ) (c : StationController) → Inv c → Inv (handle_carrier_on {D = D} wdev_id c).0
  unfolding handle_carrier_on
  handle_carrier_on-Inv wdev_id c v =
      >>-keeps Inv (require_data_interface wdev_id) note_carrier c
        (require_data_interface-Inv wdev_id c v) note_carrier-Inv

  handle_carrier_off-Inv :
      (wdev_id : ℕ) (c : StationController) → Inv c → Inv (handle_carrier_off {D = D} wdev_id c).0
  unfolding handle_carrier_off
  handle_carrier_off-Inv wdev_id c v =
      >>-keeps Inv (require_data_interface wdev_id) lose_carrier c
        (require_data_interface-Inv wdev_id c v) lose_carrier-Inv

  handle_other_control_event-Inv :
      (header : UmacHeader) (body : List ℕ) (c : StationController)
      → Inv c
      → Inv (handle_other_control_event {D = D} (ControlEvent.other header body) c).0
  unfolding handle_other_control_event
  handle_other_control_event-Inv header body c v = elim (Bool-cases (header.command_event == 281)) [
    | inl e ↦ rw e (handle_interface_created-Inv header c v)
    | inr e ↦ rw e v
  ]

  dispatch_control_event-Inv :
      (event : ControlEvent) (c : StationController)
      → Inv c
      → Inv (dispatch_control_event {D = D} event c).0
  unfolding dispatch_control_event is_status_control_event handle_status_control_event
      handle_progress_control_event is_scan_control_event handle_scan_control_event
      handle_mlme_control_event
  dispatch_control_event-Inv (ControlEvent.scan_done _ status _) = handle_scan_done-Inv status
  dispatch_control_event-Inv (ControlEvent.scan_result result) =
      handle_scan_result-Inv result.header.sequence
  dispatch_control_event-Inv (ControlEvent.authentication event) = handle_authentication-Inv event
  dispatch_control_event-Inv (ControlEvent.association event) = handle_association-Inv event
  dispatch_control_event-Inv (ControlEvent.deauthentication event) =
      handle_disconnect_event-Inv event
  dispatch_control_event-Inv (ControlEvent.disassociation event) = handle_disconnect_event-Inv event
  dispatch_control_event-Inv (ControlEvent.command_status _ command status) =
      handle_command_status-Inv command status
  dispatch_control_event-Inv (ControlEvent.interface_state _ status) =
      handle_interface_state-Inv status
  dispatch_control_event-Inv (ControlEvent.regulatory_change _ _) = handle_regulatory_change-Inv
  dispatch_control_event-Inv (ControlEvent.other header body) =
      handle_other_control_event-Inv header body

  -- Each control event keeps the invariant, whatever the state it meets.
  pub handle_control_event-Inv :
      (event : ControlEvent) (c : StationController)
      → Inv c
      → Inv (handle_control_event {D = D} event c).0
  unfolding handle_control_event
  handle_control_event-Inv event c v =
      >>-keeps Inv (check_header (control_event_header event)) (dispatch_control_event event) c
        (check_header-Inv _ c v) (dispatch_control_event-Inv event)

  pub handle_data_event-Inv :
      (event : DataEvent) (c : StationController)
      → Inv c
      → Inv (handle_data_event {D = D} event c).0
  unfolding handle_data_event
  handle_data_event-Inv (DataEvent.carrier_on wdev_id) c v = handle_carrier_on-Inv wdev_id c v
  handle_data_event-Inv (DataEvent.carrier_off wdev_id) c v = handle_carrier_off-Inv wdev_id c v
  handle_data_event-Inv _ c v = v
