-- ===== src/Station/Events/Views.antt =====
-- station.rs: what the handlers read off a control event, and the step out of a pending state.
use Prim.Native.Nat.{ℕ, ◌+◌, ◌%◌, ◌^◌}
use embassy_zephyr_n_rf.Base.{
  bit_set, List, Option, none, some, Bool, true, false, not, leb, ltb, ◌==◌, if◌then◌else◌, Outcome,
  ok, err, length, take, drop, read_u16,
}
use embassy_zephyr_n_rf.Protocol.Types.{UmacHeader}
use embassy_zephyr_n_rf.Control.Types.{MlmeEvent, ControlEvent}
use embassy_zephyr_n_rf.Station.Types.{StationState, StationFault, StationError, StationController}
use embassy_zephyr_n_rf.Station.Core.{Method, transition}

unfoldable pub control_event_header : ControlEvent → UmacHeader
control_event_header (ControlEvent.scan_done header _ _) = header
control_event_header (ControlEvent.scan_result event) = event.header
control_event_header (ControlEvent.authentication event) = event.header
control_event_header (ControlEvent.association event) = event.header
control_event_header (ControlEvent.deauthentication event) = event.header
control_event_header (ControlEvent.disassociation event) = event.header
control_event_header (ControlEvent.command_status header _ _) = header
control_event_header (ControlEvent.interface_state header _) = header
control_event_header (ControlEvent.regulatory_change header _) = header
control_event_header (ControlEvent.other header _) = header

unfoldable pub is_status_control_event : ControlEvent → Bool
is_status_control_event (ControlEvent.command_status _ _ _) = true
is_status_control_event (ControlEvent.interface_state _ _) = true
is_status_control_event (ControlEvent.regulatory_change _ _) = true
is_status_control_event (ControlEvent.other _ _) = true
is_status_control_event _ = false

unfoldable pub is_scan_control_event : ControlEvent → Bool
is_scan_control_event (ControlEvent.scan_done _ _ _) = true
is_scan_control_event (ControlEvent.scan_result _) = true
is_scan_control_event _ = false

-- `event.frame.get(offset..offset + 6)`
unfoldable pub mlme_frame_address : MlmeEvent → ℕ → Option (List ℕ)
mlme_frame_address event offset =
    if not (bit_set event.valid_fields 0)
    then none
    else if leb (offset + 6) (length event.frame)
    then some (take 6 (drop offset event.frame))
    else none

unfoldable pub mlme_status : {D : Type 0} → MlmeEvent → ℕ → Outcome (StationError D) ℕ
mlme_status event status_offset =
    if bit_set event.flags 0
    then err (StationError.faulted StationFault.mlme_timeout)
    else if not (event.header.result == 0)
    then ok (event.header.result % 2 ^ 16)
    else if not (bit_set event.valid_fields 0)
    then ok 0
    else if ltb (length event.frame) (status_offset + 2)
    then err (StationError.faulted StationFault.unexpected_event)
    else read_u16 event.frame status_offset

abbrev pub lift : {D A : Type 0} → Outcome (StationError D) A → Method D A
lift r c = (c, r)

abbrev pub settle : StationState → StationController → StationController
settle s c = transition s (record c { pending_command = none })
