-- ===== src/Station/Runs.antt =====
-- Whole histories of the controller: events, commands, timer ticks and recoveries in any order.
use Prim.Native.Nat.{ℕ}
use embassy_zephyr_n_rf.Data.Types.{DataEvent}
use embassy_zephyr_n_rf.Base.{
  ◌∙◌, sym, false, refl, ap, ◌⊎◌, inl, inr, ◌++◌, ◌≡◌, List, [], ◌∷◌, true, arith,
}
use embassy_zephyr_n_rf.Control.Types.{ControlEvent}
use embassy_zephyr_n_rf.Station.Types.{StationState, StationTimeouts, StationController}
use embassy_zephyr_n_rf.Station.Core.{
  new, controlled_port_open, set_timeouts, advance_time, complete_group_rekey, begin_recovery,
  recovery_complete,
}
use embassy_zephyr_n_rf.Base.{is_some}
use embassy_zephyr_n_rf.Station.Events.{handle_control_event, handle_data_event}
use embassy_zephyr_n_rf.Station.Port.{CommandPort, Call}
use embassy_zephyr_n_rf.Station.Commands.{Link, issue}
use embassy_zephyr_n_rf.Station.Authorization.{
  OnlyIf, GrantedBy, handle_control_event-OnlyIf, handle_data_event-OnlyIf,
}
use embassy_zephyr_n_rf.Station.Authorization.Commands.{CalledBy, issue-OnlyIf}
use embassy_zephyr_n_rf.Station.Invariant.{
  Inv, new-Inv, set_timeouts-Inv, advance_time-Inv, complete_group_rekey-Inv, begin_recovery-Inv,
  recovery_complete-Inv,
}
use embassy_zephyr_n_rf.Station.Invariant.Events.{handle_control_event-Inv, handle_data_event-Inv}
use embassy_zephyr_n_rf.Station.Invariant.Commands.{issue-Inv}
use embassy_zephyr_n_rf.Station.FailClosed.{carrier_off_faults}

-- One call of the controller's public interface.
pub data Input : Type 0 where
  control : ControlEvent → Input
  data_event : DataEvent → Input
  tick : ℕ → Input
  timeouts : StationTimeouts → Input
  rekey recovery_begin recovery_end : Input
  command : Call → Input

module _ (port : CommandPort) where
  unfoldable pub step : Input → Link port → Link port
  step (control event) (c, d) = ((handle_control_event {D = port.DeviceError} event c).0, d)
  step (data_event event) (c, d) = ((handle_data_event {D = port.DeviceError} event c).0, d)
  step (tick elapsed) (c, d) = ((advance_time elapsed c).0, d)
  step (timeouts t) (c, d) = (set_timeouts t c, d)
  step rekey (c, d) = (complete_group_rekey c, d)
  step recovery_begin (c, d) = (begin_recovery c, d)
  step recovery_end (c, d) = (recovery_complete c, d)
  step (command call) link = (issue port call link).0

  unfoldable pub run : List Input → Link port → Link port
  run [] link = link
  run (i ∷ is) link = run is (step i link)

  step-Inv : (i : Input) (link : Link port) → Inv link.0 → Inv (step i link).0
  unfolding step
  step-Inv (control event) (c, d) v = handle_control_event-Inv port.DeviceError event c v
  step-Inv (data_event event) (c, d) v = handle_data_event-Inv port.DeviceError event c v
  step-Inv (tick elapsed) (c, d) v = advance_time-Inv elapsed c v
  step-Inv (timeouts t) (c, d) v = set_timeouts-Inv t c v
  step-Inv rekey (c, d) v = complete_group_rekey-Inv c v
  step-Inv recovery_begin (c, d) v = begin_recovery-Inv c
  step-Inv recovery_end (c, d) v = recovery_complete-Inv c
  step-Inv (command call) link v = issue-Inv port call link v

  -- Every history of inputs keeps the invariant: an authorized port has a peer, the connected state
  -- is authorized, a pending return to it is authorized, the authorizing state has a peer, and a
  -- deadline runs exactly in the states that have one, above zero and at most the configured limit.
  pub run-Inv : (is : List Input) (link : Link port) → Inv link.0 → Inv (run is link).0
  unfolding run
  run-Inv [] link v = v
  run-Inv (i ∷ is) link v = run-Inv is (step i link) (step-Inv i link v)

open_port_authorized :
    (c : StationController) → controlled_port_open c ≡ true → c.controlled_port_authorized ≡ true
unfolding controlled_port_open
open_port_authorized c h = ground arith

new_unauthorized : (i f w : ℕ) → (new i f w).controlled_port_authorized ≡ true → ⊥
unfolding new
new_unauthorized i f w h = cc

-- The inputs that may authorize the controlled port: the success status of the authorization
-- command, and the association with an open network.
abbrev pub Grants : Input → StationController → Type 0
Grants (control event) c = GrantedBy event c
Grants (command call) c = CalledBy call c
Grants _ c = ⊥

advance_time-OnlyIf : (elapsed : ℕ) (c : StationController) → OnlyIf ⊥ c (advance_time elapsed c).0
unfolding advance_time
advance_time-OnlyIf elapsed c = ground arith

complete_group_rekey-OnlyIf : (c : StationController) → OnlyIf ⊥ c (complete_group_rekey c)
unfolding complete_group_rekey
complete_group_rekey-OnlyIf c = ground arith

begin_recovery-OnlyIf : (c : StationController) → OnlyIf ⊥ c (begin_recovery c)
unfolding begin_recovery
begin_recovery-OnlyIf c = ground arith

recovery_complete-OnlyIf : (c : StationController) → OnlyIf ⊥ c (recovery_complete c)
unfolding recovery_complete
recovery_complete-OnlyIf c = ground arith

set_timeouts-OnlyIf : (t : StationTimeouts) (c : StationController) → OnlyIf ⊥ c (set_timeouts t c)
unfolding set_timeouts
set_timeouts-OnlyIf t c = inl

step-OnlyIf :
    (port : CommandPort) (i : Input) (link : Link port)
    → OnlyIf (Grants i link.0) link.0 (step port i link).0
unfolding step
step-OnlyIf port (control event) (c, d) = handle_control_event-OnlyIf port.DeviceError event c
step-OnlyIf port (data_event event) (c, d) = handle_data_event-OnlyIf port.DeviceError event c
step-OnlyIf port (tick elapsed) (c, d) = advance_time-OnlyIf elapsed c
step-OnlyIf port (timeouts t) (c, d) = set_timeouts-OnlyIf t c
step-OnlyIf port rekey (c, d) = complete_group_rekey-OnlyIf c
step-OnlyIf port recovery_begin (c, d) = begin_recovery-OnlyIf c
step-OnlyIf port recovery_end (c, d) = recovery_complete-OnlyIf c
step-OnlyIf port (command call) link = issue-OnlyIf port call link

-- Somewhere in the history stands an input that grants the port in the state that it meets.
abbrev pub GrantedIn : (port : CommandPort) → List Input → Link port → Type 0
GrantedIn port is link =
    (before : List Input) × (i : Input) × (after : List Input) × (is ≡ before ++ (i ∷ after))
    × Grants i (run port before link).0

run_granted :
    (port : CommandPort) (is : List Input) (link : Link port)
    → (run port is link).0.controlled_port_authorized ≡ true
    → (link.0.controlled_port_authorized ≡ true) ⊎ GrantedIn port is link
unfolding run
run_granted port [] link a = inl a
run_granted port (i ∷ is) link a = elim (run_granted port is (step port i link) a) [
  | inl now ↦ elim (step-OnlyIf port i link now) [
    | inl was ↦ inl was
    | inr g ↦ inr ([], i, is, refl, g)
  ]
  | inr (before, j, after, e, g) ↦ inr (i ∷ before, j, after, ap (◌∷◌ i) e, g)
]

-- A controller as `new` builds it, after any history of events, commands, ticks and recoveries,
-- whatever the device answers: when the controlled port is open, a peer is selected, and the
-- history holds an input that granted the port, the success status of the authorization command
-- in the authorizing state or an association call without security in the authenticated state.
pub open_port_granted :
    (port : CommandPort) (is : List Input) (device : port.Device)
    (ifaceindex firmware_index wdev_id : ℕ)
    → controlled_port_open (run port is (new ifaceindex firmware_index wdev_id, device)).0 ≡ true
    → (is_some (run port is (new ifaceindex firmware_index wdev_id, device)).0.peer ≡ true)
      × GrantedIn port is (new ifaceindex firmware_index wdev_id, device)
open_port_granted port is device i f w h =
    let v = run-Inv port is (new i f w, device) (new-Inv i f w) in
    let a = open_port_authorized _ h in
    (
      v.authorized_peer a,
      elim (run_granted port is (new i f w, device) a) [
        | inl was ↦ absurd (new_unauthorized i f w was)
        | inr g ↦ g
      ],
    )

true_not_false : true ≡ false → ⊥
true_not_false e = cc

carrier_lost_unauthorized :
    (port : CommandPort) (c : StationController) (device : port.Device)
    → c.state ≡ StationState.connected
    → let (c', d') = step port (data_event (DataEvent.carrier_off c.wdev_id)) (c, device) in
      c'.controlled_port_authorized ≡ false
unfolding step handle_data_event
carrier_lost_unauthorized port c device s =
    (carrier_off_faults port.DeviceError c.wdev_id c refl s).4

-- A connected controller that holds the invariant loses the carrier of its own interface, and any
-- history of events, commands, ticks and recoveries follows, whatever the device answers: when the
-- controlled port is open at its end, a peer is selected, and an input after the loss granted the
-- port again.
pub carrier_lost_regranted :
    (port : CommandPort) (is : List Input) (c : StationController) (device : port.Device)
    → Inv c
    → c.state ≡ StationState.connected
    → controlled_port_open
        (run port (data_event (DataEvent.carrier_off c.wdev_id) ∷ is) (c, device)).0
      ≡ true
    → (is_some (run port (data_event (DataEvent.carrier_off c.wdev_id) ∷ is) (c, device)).0.peer
        ≡ true)
      × GrantedIn port is (step port (data_event (DataEvent.carrier_off c.wdev_id)) (c, device))
unfolding run
carrier_lost_regranted port is c device v s h =
    let lost : Link port = step port (data_event (DataEvent.carrier_off c.wdev_id)) (c, device) in
    let v' =
      run-Inv port is lost
        (step-Inv port (data_event (DataEvent.carrier_off c.wdev_id)) (c, device) v) in
    let a = open_port_authorized _ h in
    (
      v'.authorized_peer a,
      elim (run_granted port is lost a) [
        | inl was ↦ absurd (true_not_false (sym was ∙ carrier_lost_unauthorized port c device s))
        | inr g ↦ g
      ],
    )
