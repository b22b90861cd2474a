-- ===== src/Station/Events/Carrier.antt =====
-- station.rs: the data events of the firmware: carrier on and carrier off.
use Prim.Native.Nat.{ℕ}
use embassy_zephyr_n_rf.Data.Types.{DataEvent}
use embassy_zephyr_n_rf.Base.{
  inr, ==_iff, inl, Bool-cases, ◌≢◌, ◌⊎◌, ◌≡◌, true, false, ◌==◌, if◌then◌else◌, ok, err,
}
use embassy_zephyr_n_rf.Station.Types.{
  StationState, state_eq, StationFault, StationError, StationController,
}
use embassy_zephyr_n_rf.Station.Core.{
  enter_fault, Method, ◌>>◌, return, transition, clear_connection, fail, refresh_connected,
}

unfoldable pub require_data_interface : {D : Type 0} → ℕ → Method D (Unit {0})
unfolding fail
require_data_interface wdev_id c =
    if wdev_id == c.wdev_id
    then (c, ok tt)
    else fail (StationFault.interface_mismatch 1 c.ifaceindex c.ifaceindex c.wdev_id wdev_id) c

abbrev pub data_mismatch : ℕ → StationController → StationFault
data_mismatch wdev_id c =
    StationFault.interface_mismatch 1 c.ifaceindex c.ifaceindex c.wdev_id wdev_id

pub require_data_interface_cases :
    {D : Type 0} (wdev_id : ℕ) (c : StationController)
    → ((wdev_id ≡ c.wdev_id) × (require_data_interface {D = D} wdev_id c ≡ (c, ok tt)))
      ⊎ ((wdev_id ≢ c.wdev_id)
          × (require_data_interface {D = D} wdev_id c ≡ (
            enter_fault (data_mismatch wdev_id c) c,
            err (StationError.faulted (data_mismatch wdev_id c)),
          )))
unfolding require_data_interface
require_data_interface_cases wdev_id c = elim (Bool-cases (wdev_id == c.wdev_id)) [
  | inl e ↦ inl ((==_iff wdev_id c.wdev_id).0 e, rw (e, require_data_interface))
  | inr e ↦ inr (λ p. cc ((==_iff wdev_id c.wdev_id).1 p), rw (e, require_data_interface))
]

unfoldable pub note_carrier : {D : Type 0} → Method D (Unit {0})
unfolding refresh_connected
note_carrier c = (refresh_connected (record c { carrier_on = true }), ok tt)

unfoldable pub handle_carrier_on : {D : Type 0} → ℕ → Method D (Unit {0})
handle_carrier_on wdev_id = do require_data_interface wdev_id; note_carrier

unfoldable pub lose_carrier : {D : Type 0} → Method D (Unit {0})
unfolding fail transition clear_connection
lose_carrier c =
    let c' = record c { carrier_on = false } in
    if state_eq c'.state StationState.connected
    then fail StationFault.carrier_lost (transition StationState.idle (clear_connection c'))
    else (c', ok tt)

unfoldable pub handle_carrier_off : {D : Type 0} → ℕ → Method D (Unit {0})
handle_carrier_off wdev_id = do require_data_interface wdev_id; lose_carrier

unfoldable pub handle_data_event : {D : Type 0} → DataEvent → Method D (Unit {0})
handle_data_event (DataEvent.carrier_on wdev_id) = handle_carrier_on wdev_id
handle_data_event (DataEvent.carrier_off wdev_id) = handle_carrier_off wdev_id
handle_data_event _ = return tt
