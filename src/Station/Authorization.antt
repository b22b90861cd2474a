-- ===== src/Station/Authorization.antt =====
-- station.rs: the only ways to an authorized controlled port.
pub mod Commands
use Prim.Native.Nat.{ℕ}
use embassy_zephyr_n_rf.Data.Types.{DataEvent}
use embassy_zephyr_n_rf.Base.{◌≡◌, ◌⊎◌, true, arith}
use embassy_zephyr_n_rf.Protocol.Types.{UmacHeader}
use embassy_zephyr_n_rf.Control.Types.{MlmeEvent}
use embassy_zephyr_n_rf.Control.Types.{ControlEvent}
use embassy_zephyr_n_rf.Station.Core.{mismatch, enter_fault, check_header_cases}
use embassy_zephyr_n_rf.Base.{List, Outcome, if_both, Bool-cases, inl, inr, ◌==◌}
use embassy_zephyr_n_rf.Station.Types.{StationFault, StationError, StationState, StationController}
use embassy_zephyr_n_rf.Station.Core.{check_header}
use embassy_zephyr_n_rf.Station.Events.{
  control_event_header, is_status_control_event, is_scan_control_event, is_default_interface_status,
  dispatch_control_event, handle_command_status, handle_carrier_on, handle_carrier_off,
  handle_other_control_event, handle_status_control_event, handle_scan_control_event,
  handle_mlme_control_event, handle_progress_control_event, handle_control_event, handle_data_event,
  require_data_interface_cases, pending_reply, note_carrier, validate_pending_command,
  command_accepted, default_interface_reply, require_data_interface, lose_carrier,
  handle_interface_state, handle_scan_done, handle_scan_result, handle_authentication,
  handle_association, handle_disconnect_event, handle_regulatory_change, handle_interface_created,
}

-- `c'` is authorized only if `c` is, or for the reason `R`.
abbrev pub OnlyIf {ℓ} : Type ℓ → StationController → StationController → Type ℓ
OnlyIf R c c' = c'.controlled_port_authorized ≡ true → (c.controlled_port_authorized ≡ true) ⊎ R

-- The status event that confirms `authorize`.
abbrev pub Confirms : ℕ → ℕ → StationController → Type 0
Confirms command status c = (command ≡ 21) × (status ≡ 0) × (c.state ≡ StationState.authorizing)

abbrev pub GrantedBy : ControlEvent → StationController → Type 0
GrantedBy (ControlEvent.command_status _ command status) c = Confirms command status c
GrantedBy _ c = ⊥

OnlyIf-widen : {R : Type 0} (c c' : StationController) → OnlyIf ⊥ c c' → OnlyIf R c c'
OnlyIf-widen c c' h a = elim (h a) [ inl x ↦ inl x | inr x ↦ absurd x ]

module _ (D : Type 0) where
  fault-OnlyIf : (f : StationFault) (c : StationController) → OnlyIf ⊥ c (enter_fault f c)
  unfolding enter_fault
  fault-OnlyIf f c = inl

  handle_scan_done-OnlyIf :
      (status : ℕ) (c : StationController) → OnlyIf ⊥ c (handle_scan_done {D = D} status c).0
  unfolding handle_scan_done
  handle_scan_done-OnlyIf status c = ground arith

  handle_scan_result-OnlyIf :
      (sequence : ℕ) (c : StationController) → OnlyIf ⊥ c (handle_scan_result {D = D} sequence c).0
  unfolding handle_scan_result
  handle_scan_result-OnlyIf sequence c = ground arith

  handle_interface_state-OnlyIf :
      (status : ℕ) (c : StationController) → OnlyIf ⊥ c (handle_interface_state {D = D} status c).0
  unfolding handle_interface_state
  handle_interface_state-OnlyIf status c = ground arith

  handle_authentication-OnlyIf :
      (event : MlmeEvent) (c : StationController)
      → OnlyIf ⊥ c (handle_authentication {D = D} event c).0
  unfolding handle_authentication
  handle_authentication-OnlyIf event c = ground arith

  handle_association-OnlyIf :
      (event : MlmeEvent) (c : StationController)
      → OnlyIf ⊥ c (handle_association {D = D} event c).0
  unfolding handle_association
  handle_association-OnlyIf event c = ground arith

  handle_disconnect_event-OnlyIf :
      (event : MlmeEvent) (c : StationController)
      → OnlyIf ⊥ c (handle_disconnect_event {D = D} event c).0
  unfolding handle_disconnect_event
  handle_disconnect_event-OnlyIf event c = ground arith

  handle_regulatory_change-OnlyIf :
      (c : StationController) → OnlyIf ⊥ c (handle_regulatory_change {D = D} c).0
  unfolding handle_regulatory_change
  handle_regulatory_change-OnlyIf c = ground arith

  handle_interface_created-OnlyIf :
      (header : UmacHeader) (c : StationController)
      → OnlyIf ⊥ c (handle_interface_created {D = D} header c).0
  unfolding handle_interface_created
  handle_interface_created-OnlyIf header c = ground arith

  validate_pending_command-OnlyIf :
      (command status : ℕ) (c : StationController)
      → OnlyIf ⊥ c (validate_pending_command {D = D} command status c).0
  unfolding validate_pending_command
  validate_pending_command-OnlyIf command status c = ground arith

  default_interface_reply-OnlyIf :
      (command status : ℕ) (c : StationController)
      → OnlyIf ⊥ c (default_interface_reply {D = D} command status c).0
  unfolding default_interface_reply
  default_interface_reply-OnlyIf command status c = ground arith

  note_carrier-OnlyIf : (c : StationController) → OnlyIf ⊥ c (note_carrier {D = D} c).0
  unfolding note_carrier
  note_carrier-OnlyIf c = ground arith

  lose_carrier-OnlyIf : (c : StationController) → OnlyIf ⊥ c (lose_carrier {D = D} c).0
  unfolding lose_carrier
  lose_carrier-OnlyIf c = ground arith

  pending_reply-OnlyIf :
      (command status : ℕ) (c : StationController)
      → OnlyIf (Confirms command status c) c (pending_reply {D = D} command status c).0
  unfolding pending_reply validate_pending_command command_accepted
  pending_reply-OnlyIf command status c = ground arith

  handle_command_status-OnlyIf :
      (command status : ℕ) (c : StationController)
      → OnlyIf (Confirms command status c) c (handle_command_status {D = D} command status c).0
  unfolding handle_command_status
  handle_command_status-OnlyIf command status c =
      if_both {A = StationController × Outcome (StationError D) (Unit {0})}
        (λ r. OnlyIf (Confirms command status c) c r.0) (is_default_interface_status command c)
        (OnlyIf-widen c (default_interface_reply {D = D} command status c).0
          (default_interface_reply-OnlyIf command status c))
        (pending_reply-OnlyIf command status c)

  handle_carrier_on-OnlyIf :
      (wdev_id : ℕ) (c : StationController) → OnlyIf ⊥ c (handle_carrier_on {D = D} wdev_id c).0
  unfolding handle_carrier_on
  handle_carrier_on-OnlyIf wdev_id c = elim (require_data_interface_cases {D = D} wdev_id c) [
    | inl (_, e) ↦ rw e (note_carrier-OnlyIf c)
    | inr (_, e) ↦ rw e (fault-OnlyIf _ c)
  ]

  handle_carrier_off-OnlyIf :
      (wdev_id : ℕ) (c : StationController) → OnlyIf ⊥ c (handle_carrier_off {D = D} wdev_id c).0
  unfolding handle_carrier_off
  handle_carrier_off-OnlyIf wdev_id c = elim (require_data_interface_cases {D = D} wdev_id c) [
    | inl (_, e) ↦ rw e (lose_carrier-OnlyIf c)
    | inr (_, e) ↦ rw e (fault-OnlyIf _ c)
  ]

  handle_other_control_event-OnlyIf :
      (header : UmacHeader) (body : List ℕ) (c : StationController)
      → OnlyIf ⊥ c (handle_other_control_event {D = D} (ControlEvent.other header body) c).0
  unfolding handle_other_control_event
  handle_other_control_event-OnlyIf header body c =
      elim (Bool-cases (header.command_event == 281)) [
        | inl e ↦ rw e (handle_interface_created-OnlyIf header c)
        | inr e ↦ rw e inl
      ]

  dispatch_control_event-OnlyIf :
      (event : ControlEvent) (c : StationController)
      → OnlyIf (GrantedBy event c) c (dispatch_control_event {D = D} event c).0
  unfolding dispatch_control_event is_status_control_event handle_status_control_event
      handle_progress_control_event is_scan_control_event handle_scan_control_event
      handle_mlme_control_event
  dispatch_control_event-OnlyIf (ControlEvent.scan_done _ status _) = handle_scan_done-OnlyIf status
  dispatch_control_event-OnlyIf (ControlEvent.scan_result result) =
      handle_scan_result-OnlyIf result.header.sequence
  dispatch_control_event-OnlyIf (ControlEvent.authentication event) =
      handle_authentication-OnlyIf event
  dispatch_control_event-OnlyIf (ControlEvent.association event) = handle_association-OnlyIf event
  dispatch_control_event-OnlyIf (ControlEvent.deauthentication event) =
      handle_disconnect_event-OnlyIf event
  dispatch_control_event-OnlyIf (ControlEvent.disassociation event) =
      handle_disconnect_event-OnlyIf event
  dispatch_control_event-OnlyIf (ControlEvent.command_status _ command status) =
      handle_command_status-OnlyIf command status
  dispatch_control_event-OnlyIf (ControlEvent.interface_state _ status) =
      handle_interface_state-OnlyIf status
  dispatch_control_event-OnlyIf (ControlEvent.regulatory_change _ _) =
      handle_regulatory_change-OnlyIf
  dispatch_control_event-OnlyIf (ControlEvent.other header body) =
      handle_other_control_event-OnlyIf header body

  pub handle_control_event-OnlyIf :
      (event : ControlEvent) (c : StationController)
      → OnlyIf (GrantedBy event c) c (handle_control_event {D = D} event c).0
  unfolding handle_control_event
  handle_control_event-OnlyIf event c =
      elim (check_header_cases {D = D} (control_event_header event) c) [
        | inl e ↦ rw e (dispatch_control_event-OnlyIf event c)
        | inr e ↦ rw e (
            OnlyIf-widen c (enter_fault (mismatch (control_event_header event) c) c)
              (fault-OnlyIf _ c))
      ]

  pub handle_data_event-OnlyIf :
      (event : DataEvent) (c : StationController) → OnlyIf ⊥ c (handle_data_event {D = D} event c).0
  unfolding handle_data_event
  handle_data_event-OnlyIf (DataEvent.carrier_on wdev_id) c = handle_carrier_on-OnlyIf wdev_id c
  handle_data_event-OnlyIf (DataEvent.carrier_off wdev_id) c = handle_carrier_off-OnlyIf wdev_id c
  handle_data_event-OnlyIf _ c = inl
