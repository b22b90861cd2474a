-- ===== src/Station/Invariant.antt =====
-- The invariant of the station controller: who may hold an authorized port, and which deadlines run.
pub mod Events
pub mod Commands
use Prim.Native.Nat.{ℕ, ◌≤◌, ◌<◌}
use embassy_zephyr_n_rf.Base.{◌≡◌, Option, none, some, Bool, true, false, arith}
use embassy_zephyr_n_rf.Station.Types.{
  StationState, StationTimeouts, StationFault, StationController,
}
use embassy_zephyr_n_rf.Station.Core.{
  new, timeout_for, set_timeouts, advance_time, complete_group_rekey, begin_recovery,
  recovery_complete, enter_fault,
}
use embassy_zephyr_n_rf.Base.{is_some}

-- A deadline runs exactly in the states that have one, and has not passed.
abbrev pub IsArmed : Option ℕ → Option ℕ → Type 0
IsArmed none none = Unit {0}
IsArmed none (some limit) = ⊥
IsArmed (some remaining) none = ⊥
IsArmed (some remaining) (some limit) = (0 < remaining) × (remaining ≤ limit)

-- The states in which a return to `connected` may still be pending.
abbrev pub may_return : StationState → Bool
may_return StationState.securing = true
may_return StationState.authorizing = true
may_return StationState.awaiting_carrier = true
may_return StationState.connected = true
may_return StationState.power_save_pending = true
may_return StationState.fault = true
may_return _ = false

-- The states that a command can ask to return to.
abbrev pub is_return_state : Option StationState → Bool
is_return_state none = true
is_return_state (some StationState.down) = true
is_return_state (some StationState.idle) = true
is_return_state (some StationState.connected) = true
is_return_state (some _) = false

pub record Inv (c : StationController) : Type 0 where
  pub authorized_peer : c.controlled_port_authorized ≡ true → is_some c.peer ≡ true
  pub connected_authorized : c.state ≡ StationState.connected → c.controlled_port_authorized ≡ true
  pub return_authorized :
      c.pending_return_state ≡ some StationState.connected
      → (c.controlled_port_authorized ≡ true) × (may_return c.state ≡ true)
  pub authorizing_peer : c.state ≡ StationState.authorizing → is_some c.peer ≡ true
  pub return_state : is_return_state c.pending_return_state ≡ true
  pub armed : IsArmed c.remaining_ms (timeout_for c.timeouts c.state)

pub new-Inv : (ifaceindex firmware_index wdev_id : ℕ) → Inv (new ifaceindex firmware_index wdev_id)
unfolding new timeout_for
new-Inv i f w = ground arith

timeout_for-IsArmed :
    (t : StationTimeouts) (s : StationState) → IsArmed (timeout_for t s) (timeout_for t s)
unfolding timeout_for
timeout_for-IsArmed t StationState.down = tt
timeout_for-IsArmed t _ = ground arith

pub set_timeouts-Inv :
    (t : StationTimeouts) (c : StationController) → Inv c → Inv (set_timeouts t c)
unfolding set_timeouts
set_timeouts-Inv t c v = record {
  authorized_peer = v.authorized_peer;
  connected_authorized = v.connected_authorized;
  return_authorized = v.return_authorized;
  authorizing_peer = v.authorizing_peer;
  return_state = v.return_state;
  armed = timeout_for-IsArmed t c.state;
}

pub advance_time-Inv :
    (elapsed : ℕ) (c : StationController) → Inv c → Inv (advance_time elapsed c).0
unfolding advance_time
advance_time-Inv elapsed c v = ground arith

pub complete_group_rekey-Inv : (c : StationController) → Inv c → Inv (complete_group_rekey c)
unfolding complete_group_rekey
complete_group_rekey-Inv c v = ground arith

pub begin_recovery-Inv : (c : StationController) → Inv (begin_recovery c)
unfolding begin_recovery
begin_recovery-Inv c = ground arith

pub recovery_complete-Inv : (c : StationController) → Inv (recovery_complete c)
unfolding recovery_complete
recovery_complete-Inv c = ground arith

pub fault-Inv : (f : StationFault) (c : StationController) → Inv c → Inv (enter_fault f c)
unfolding enter_fault
fault-Inv f c v = ground arith
