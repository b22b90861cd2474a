-- ===== src/Station/FailClosed.antt =====
-- station.rs: what an event that is refused leaves behind, and what a carrier event does.
use Prim.Native.Nat.{ℕ}
use embassy_zephyr_n_rf.Base.{some, err, ◌≡◌, inl, inr, none, true, false, ok, arith}
use embassy_zephyr_n_rf.Station.Types.{StationError, StationState, StationFault, StationController}
use embassy_zephyr_n_rf.Station.Core.{enter_fault, controlled_port_open}
use embassy_zephyr_n_rf.Station.Events.{
  require_data_interface_cases, handle_carrier_on, handle_carrier_off, note_carrier, lose_carrier,
}

note_carrier_lem :
    (D : Type 0) (c : StationController)
    → ((note_carrier {D = D} c).1 ≡ ok tt)
      × (controlled_port_open (note_carrier {D = D} c).0 ≡ c.controlled_port_authorized)
      × ((note_carrier {D = D} c).0.carrier_on ≡ true)
unfolding note_carrier controlled_port_open
note_carrier_lem D c = ground arith

-- A carrier-on event for the controller's own interface succeeds, and leaves the controlled port
-- open exactly when the port was authorized: in every state, the fault state included.
pub carrier_on_opens :
    (D : Type 0) (wdev_id : ℕ) (c : StationController)
    → wdev_id ≡ c.wdev_id
    → ((handle_carrier_on {D = D} wdev_id c).1 ≡ ok tt)
      × (controlled_port_open (handle_carrier_on {D = D} wdev_id c).0
          ≡ c.controlled_port_authorized)
unfolding handle_carrier_on
carrier_on_opens D wdev_id c own = elim (require_data_interface_cases {D = D} wdev_id c) [
  | inl (_, e) ↦ rw e ((note_carrier_lem D c).0, (note_carrier_lem D c).1)
  | inr (other, _) ↦ absurd (other own)
]

lose_carrier_lem :
    (D : Type 0) (c : StationController)
    → (controlled_port_open (lose_carrier {D = D} c).0 ≡ false)
      × (c.state ≡ StationState.connected
          → let (c', r) = lose_carrier {D = D} c in
            (r ≡ err (StationError.faulted StationFault.carrier_lost))
            × (c'.state ≡ StationState.fault)
            × (c'.last_fault ≡ some StationFault.carrier_lost)
            × (c'.peer ≡ none)
            × (c'.controlled_port_authorized ≡ false))
unfolding lose_carrier controlled_port_open
lose_carrier_lem D c = ground arith

fault_shut :
    (f : StationFault) (c : StationController) → controlled_port_open (enter_fault f c) ≡ false
unfolding enter_fault controlled_port_open
fault_shut f c = ground arith

-- After a carrier-off event the controlled port is closed, in every state and whichever interface
-- the event names.
pub carrier_off_shuts :
    (D : Type 0) (wdev_id : ℕ) (c : StationController)
    → controlled_port_open (handle_carrier_off {D = D} wdev_id c).0 ≡ false
unfolding handle_carrier_off
carrier_off_shuts D wdev_id c = elim (require_data_interface_cases {D = D} wdev_id c) [
  | inl (own, e) ↦ rw e (lose_carrier_lem D c).0
  | inr (other, e) ↦ rw e (fault_shut _ c)
]

-- A carrier-off event for the controller's own interface in the connected state is reported as the
-- loss of the carrier: the controller faults, forgets the peer and withdraws the authorization.
pub carrier_off_faults :
    (D : Type 0) (wdev_id : ℕ) (c : StationController)
    → wdev_id ≡ c.wdev_id
    → c.state ≡ StationState.connected
    → let (c', r) = handle_carrier_off {D = D} wdev_id c in
      (r ≡ err (StationError.faulted StationFault.carrier_lost))
      × (c'.state ≡ StationState.fault)
      × (c'.last_fault ≡ some StationFault.carrier_lost)
      × (c'.peer ≡ none)
      × (c'.controlled_port_authorized ≡ false)
unfolding handle_carrier_off
carrier_off_faults D wdev_id c own s = elim (require_data_interface_cases {D = D} wdev_id c) [
  | inl (_, e) ↦ rw e ((lose_carrier_lem D c).1 s)
  | inr (other, _) ↦ absurd (other own)
]
