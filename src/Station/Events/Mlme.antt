-- ===== src/Station/Events/Mlme.antt =====
-- station.rs: the scan, authentication, association and disconnection events.
use Prim.Native.Nat.{ℕ}
use embassy_zephyr_n_rf.Base.{List, Option, none, some, not, ◌==◌, if◌then◌else◌, ok}
use embassy_zephyr_n_rf.Control.Types.{MlmeEvent}
use embassy_zephyr_n_rf.Station.Types.{StationState, state_eq, StationFault}
use embassy_zephyr_n_rf.Station.Core.{
  Method, ◌>>=◌, ◌>>◌, modify, transition, clear_connection, fail, refresh_connected, check_peer,
}
use embassy_zephyr_n_rf.Base.{is_none}
use embassy_zephyr_n_rf.Station.Events.Views.{lift, settle, mlme_frame_address, mlme_status}

unfoldable pub handle_scan_done : {D : Type 0} → ℕ → Method D (Unit {0})
unfolding transition fail
handle_scan_done status c =
    if not (state_eq c.state StationState.scanning)
    then fail StationFault.unexpected_event c
    else if status == 0
    then (settle StationState.scan_complete c, ok tt)
    else fail (StationFault.command_rejected 0 status) (record c { pending_command = none })

unfoldable pub handle_scan_result : {D : Type 0} → ℕ → Method D (Unit {0})
unfolding transition fail
handle_scan_result sequence c =
    if not (state_eq c.state StationState.reading_scan_results)
    then fail StationFault.unexpected_event c
    else if sequence == 0
    then (settle StationState.idle c, ok tt)
    else (transition StationState.reading_scan_results c, ok tt)

finish_authentication : {D : Type 0} → ℕ → Method D (Unit {0})
unfolding transition fail
finish_authentication status c =
    if not (status == 0)
    then fail (StationFault.authentication_failed status) c
    else (settle StationState.authenticated c, ok tt)

authentication_reply : {D : Type 0} → MlmeEvent → Option (List ℕ) → Method D (Unit {0})
unfolding finish_authentication check_peer mlme_status fail
authentication_reply event none = fail StationFault.unexpected_event
authentication_reply event (some p) = do
  check_peer p
  status ← lift (mlme_status event 28)
  finish_authentication status

unfoldable pub handle_authentication : {D : Type 0} → MlmeEvent → Method D (Unit {0})
unfolding authentication_reply fail
handle_authentication event c =
    if not (state_eq c.state StationState.authenticating)
    then fail StationFault.unexpected_event c
    else authentication_reply event (mlme_frame_address event 10) c

finish_association : {D : Type 0} → ℕ → Method D (Unit {0})
unfolding transition fail refresh_connected
finish_association status c =
    if not (status == 0) then fail (StationFault.association_failed status) c else (
      refresh_connected (
          settle
            (if c.secure_connection then StationState.securing else StationState.awaiting_carrier)
            c),
      ok tt,
    )

association_reply : {D : Type 0} → MlmeEvent → Option (List ℕ) → Method D (Unit {0})
unfolding finish_association check_peer mlme_status fail
association_reply event none = fail StationFault.unexpected_event
association_reply event (some p) = do
  check_peer p
  status ← lift (mlme_status event 26)
  finish_association status

unfoldable pub handle_association : {D : Type 0} → MlmeEvent → Method D (Unit {0})
unfolding association_reply fail
handle_association event c =
    if not (state_eq c.state StationState.associating)
    then fail StationFault.unexpected_event c
    else association_reply event (mlme_frame_address event 16) c

disconnect_reply : {D : Type 0} → Option (List ℕ) → Method D (Unit {0})
unfolding check_peer transition clear_connection fail
disconnect_reply none = fail StationFault.unexpected_event
disconnect_reply (some p) = do
  check_peer p
  modify λ c.
      transition StationState.idle
        (record (clear_connection c) { pending_command = none; pending_return_state = none })

unfoldable pub handle_disconnect_event : {D : Type 0} → MlmeEvent → Method D (Unit {0})
unfolding disconnect_reply
handle_disconnect_event event c =
    if is_none c.peer then (c, ok tt) else disconnect_reply (mlme_frame_address event 10) c
