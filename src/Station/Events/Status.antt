-- ===== src/Station/Events/Status.antt =====
-- station.rs: command status, interface state, interface creation and regulatory change.
use Prim.Native.Nat.{ℕ}
use embassy_zephyr_n_rf.Base.{unwrap_or, none, Bool, true, not, ◌&&◌, ◌||◌, ◌==◌, if◌then◌else◌, ok}
use embassy_zephyr_n_rf.Protocol.Types.{UmacHeader}
use embassy_zephyr_n_rf.Station.Types.{StationState, state_eq, StationFault, StationController}
use embassy_zephyr_n_rf.Station.Core.{
  Method, ◌>>◌, is_command, transition, clear_connection, fail, refresh_connected,
}
use embassy_zephyr_n_rf.Base.{is_none}
use embassy_zephyr_n_rf.Station.Events.Views.{settle}

unfoldable pub handle_interface_state : {D : Type 0} → ℕ → Method D (Unit {0})
unfolding transition clear_connection fail
handle_interface_state status c =
    if not (status == 0)
    then fail (StationFault.command_rejected 18 status) c
    else if state_eq c.state StationState.interface_up_pending
    then (settle StationState.idle c, ok tt)
    else if state_eq c.state StationState.interface_down_pending
    then (settle StationState.down (clear_connection c), ok tt)
    else fail StationFault.unexpected_event c

-- `pending_return_state.take().unwrap_or(default)`, and the transition there.
abbrev pub return_to : StationState → StationController → StationController
return_to default c =
    transition (unwrap_or c.pending_return_state default) (record c { pending_return_state = none })

unfoldable pub handle_regulatory_change : {D : Type 0} → Method D (Unit {0})
unfolding transition
handle_regulatory_change c =
    if state_eq c.state StationState.regulatory_pending
    then (return_to StationState.down (record c { pending_command = none }), ok tt)
    else (c, ok tt)

unfoldable pub handle_interface_created : {D : Type 0} → UmacHeader → Method D (Unit {0})
unfolding transition fail
handle_interface_created header c =
    if not (header.result == 0)
    then fail (StationFault.command_rejected 15 header.result) c
    else if state_eq c.state StationState.interface_create_pending
        && is_command c.pending_command 15
    then (settle StationState.down (record c { interface_created = true }), ok tt)
    else if c.interface_created && state_eq c.state StationState.down
    then (c, ok tt)
    else fail StationFault.unexpected_event c

unfoldable pub is_default_interface_status : ℕ → StationController → Bool
is_default_interface_status command c =
    (command == 15) && c.interface_created && is_none c.pending_command

unfoldable pub validate_pending_command : {D : Type 0} → ℕ → ℕ → Method D (Unit {0})
unfolding fail
validate_pending_command command status c =
    if not (is_command c.pending_command command)
    then fail StationFault.unexpected_event c
    else if not (status == 0)
    then fail (StationFault.command_rejected command status) c
    else (c, ok tt)

-- `KEY_COMMANDS` and `POWER_SAVE_COMMANDS`
abbrev pub is_key_command : ℕ → Bool
is_key_command command = (command == 6) || (command == 7) || (command == 8)

abbrev pub is_power_save_command : ℕ → Bool
is_power_save_command command = (command == 33) || (command == 53)

unfoldable pub apply_successful_command : ℕ → StationController → StationController
unfolding transition refresh_connected
apply_successful_command command c =
    if is_key_command command
    then transition StationState.securing c
    else if (command == 21) && state_eq c.state StationState.authorizing
    then refresh_connected
        (transition StationState.awaiting_carrier (record c { controlled_port_authorized = true }))
    else if is_power_save_command command && state_eq c.state StationState.power_save_pending
    then return_to StationState.fault c
    else c

unfoldable pub command_accepted : {D : Type 0} → ℕ → Method D (Unit {0})
unfolding apply_successful_command
command_accepted command c =
    if command == 15
    then (c, ok tt)
    else (apply_successful_command command (record c { pending_command = none }), ok tt)

unfoldable pub default_interface_reply : {D : Type 0} → ℕ → ℕ → Method D (Unit {0})
unfolding fail
default_interface_reply command status c =
    if status == 0 then (c, ok tt) else fail (StationFault.command_rejected command status) c

unfoldable pub pending_reply : {D : Type 0} → ℕ → ℕ → Method D (Unit {0})
pending_reply command status = do validate_pending_command command status; command_accepted command

unfoldable pub handle_command_status : {D : Type 0} → ℕ → ℕ → Method D (Unit {0})
handle_command_status command status c =
    if is_default_interface_status command c
    then default_interface_reply command status c
    else pending_reply command status c
