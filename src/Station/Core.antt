-- ===== src/Station/Core.antt =====
-- station.rs: the helpers that every operation of the controller shares, and its timers.
use embassy_zephyr_n_rf.Base.Actions.{Action, continue_with}
pub use embassy_zephyr_n_rf.Base.Actions.{◌>>=◌, ◌>>◌}
use Prim.Native.Nat.{ℕ, ◌-◌, max}
use embassy_zephyr_n_rf.Base.{
  bytes_eq, bit_set, inr, inl, Bool-cases, ◌⊎◌, ◌≡◌, List, [], ◌∷◌, Option, none, some, Bool, true,
  false, not, ◌&&◌, ◌||◌, ltb, ◌==◌, if◌then◌else◌, Outcome, ok, err, panic,
}
use embassy_zephyr_n_rf.Protocol.Types.{UmacHeader, UmacCommand, command_value}
use embassy_zephyr_n_rf.Station.Types.{
  StationState, state_eq, StationTimeouts, default_timeouts, StationFault, StationError,
  StationController,
}

-- A method returns the controller beside its result; the controller is kept on an error.
abbrev pub Method : Type 0 → Type 0 → Type 0
Method D A = Action StationController (StationError D) A

-- What the first method establishes and the second keeps holds after both.
pub >>-keeps {ℓ} :
    {D B : Type 0} (P : StationController → Type ℓ) (m : Method D (Unit {0})) (k : Method D B)
    (c : StationController)
    → P (m c).0
    → ((c' : StationController) → P c' → P (k c').0)
    → P ((m >> k) c).0
>>-keeps {D} {B} P m k c start keep = after (m c) start
  where
    after :
        (r : StationController × Outcome (StationError D) (Unit {0}))
        → P r.0
        → P (continue_with (λ _. k) r).0
    after (c', ok a) h = keep c' h
    after (c', err e) h = h
    after (c', panic) h = h

abbrev pub return : {D A : Type 0} → A → Method D A
return a c = (c, ok a)

abbrev pub modify : {D : Type 0} → (StationController → StationController) → Method D (Unit {0})
modify f c = (f c, ok tt)

abbrev pub is_peer : Option (List ℕ) → List ℕ → Bool
is_peer none p = false
is_peer (some q) p = bytes_eq q p

abbrev pub is_command : Option UmacCommand → ℕ → Bool
is_command none value = false
is_command (some command) value = command_value command == value

-- `StationController::new`
unfoldable pub new : ℕ → ℕ → ℕ → StationController
new ifaceindex firmware_index wdev_id = record {
  ifaceindex = ifaceindex;
  firmware_index = firmware_index;
  wdev_id = wdev_id;
  state = StationState.down;
  last_fault = none;
  interface_created = false;
  peer = none;
  secure_connection = false;
  controlled_port_authorized = false;
  carrier_on = false;
  pending_command = none;
  pending_return_state = none;
  timeouts = default_timeouts;
  remaining_ms = none;
}

unfoldable pub controlled_port_open : StationController → Bool
controlled_port_open c =
    state_eq c.state StationState.connected && c.controlled_port_authorized && c.carrier_on

-- `values[state as usize].map(|value| value.max(1))`
unfoldable pub timeout_for : StationTimeouts → StationState → Option ℕ
timeout_for t StationState.down = none
timeout_for t StationState.interface_create_pending = some (max t.interface_ms 1)
timeout_for t StationState.idle = none
timeout_for t StationState.regulatory_pending = some (max t.regulatory_ms 1)
timeout_for t StationState.interface_up_pending = some (max t.interface_ms 1)
timeout_for t StationState.scanning = some (max t.scan_ms 1)
timeout_for t StationState.scan_complete = some (max t.scan_complete_ms 1)
timeout_for t StationState.reading_scan_results = some (max t.scan_results_ms 1)
timeout_for t StationState.authenticating = some (max t.authentication_ms 1)
timeout_for t StationState.authenticated = some (max t.authenticated_ms 1)
timeout_for t StationState.associating = some (max t.association_ms 1)
timeout_for t StationState.securing = some (max t.key_exchange_ms 1)
timeout_for t StationState.authorizing = some (max t.authorization_ms 1)
timeout_for t StationState.awaiting_carrier = some (max t.carrier_ms 1)
timeout_for t StationState.connected = none
timeout_for t StationState.power_save_pending = some (max t.power_save_ms 1)
timeout_for t StationState.disconnecting = some (max t.disconnect_ms 1)
timeout_for t StationState.interface_down_pending = some (max t.interface_ms 1)
timeout_for t StationState.recovering = none
timeout_for t StationState.fault = none

unfoldable pub transition : StationState → StationController → StationController
unfolding timeout_for
transition s c = record c { state = s; remaining_ms = timeout_for c.timeouts s }

unfoldable pub clear_connection : StationController → StationController
clear_connection c = record c {
  peer = none;
  secure_connection = false;
  controlled_port_authorized = false;
  carrier_on = false;
}

abbrev pub clear_pending : StationController → StationController
clear_pending c = record c { pending_command = none; pending_return_state = none }

-- The state change of `fail`.
unfoldable pub enter_fault : StationFault → StationController → StationController
unfolding transition
enter_fault f c =
    transition StationState.fault
      (record c { last_fault = some f; pending_command = none; pending_return_state = none })

unfoldable pub fail : {D A : Type 0} → StationFault → Method D A
unfolding enter_fault
fail f c = (enter_fault f c, err (StationError.faulted f))

unfoldable pub refresh_connected : StationController → StationController
unfolding transition
refresh_connected c =
    if c.carrier_on && c.controlled_port_authorized then transition StationState.connected c else c

unfoldable pub set_timeouts : StationTimeouts → StationController → StationController
unfolding timeout_for
set_timeouts t c = record c { timeouts = t; remaining_ms = timeout_for t c.state }

-- `advance_time`, on the remaining time.
expire : StationController → StationController × Option StationFault
unfolding enter_fault
expire c = let f = StationFault.timeout c.state in (enter_fault f c, some f)

-- The option is the `Err` of `advance_time`.
unfoldable pub advance_time : ℕ → StationController → StationController × Option StationFault
unfolding expire
advance_time elapsed c = elim c.remaining_ms [
  | none ↦ (c, none)
  | some remaining ↦
      if ltb elapsed remaining
      then (record c { remaining_ms = some (remaining - elapsed) }, none)
      else expire c
]

unfoldable pub complete_group_rekey : StationController → StationController
unfolding transition
complete_group_rekey c =
    if c.secure_connection && c.controlled_port_authorized
    then transition (if c.carrier_on then StationState.connected else StationState.awaiting_carrier)
        c
    else transition StationState.fault
        (record c { last_fault = some StationFault.unexpected_event })

unfoldable pub begin_recovery : StationController → StationController
unfolding transition clear_connection
begin_recovery c =
    transition StationState.recovering
      (clear_pending (clear_connection (record c { interface_created = false })))

unfoldable pub recovery_complete : StationController → StationController
unfolding transition clear_connection
recovery_complete c =
    transition StationState.down
      (record (clear_pending (clear_connection (record c { interface_created = false }))) {
        last_fault = none;
      })

-- `required.contains(&self.state)`
abbrev pub contains_state : List StationState → StationState → Bool
contains_state [] s = false
contains_state (r ∷ rs) s = state_eq r s || contains_state rs s

unfoldable pub require : {D : Type 0} → StationState → Method D (Unit {0})
require required c =
    if state_eq c.state required
    then (c, ok tt)
    else (c, err (StationError.invalid_state c.state required))

-- The list is `first ∷ rest`; the source indexes `required[0]`.
unfoldable pub require_one_of :
    {D : Type 0} → StationState → List StationState → Method D (Unit {0})
require_one_of first rest c =
    if contains_state (first ∷ rest) c.state
    then (c, ok tt)
    else (c, err (StationError.invalid_state c.state first))

unfoldable pub check_peer : {D : Type 0} → List ℕ → Method D (Unit {0})
unfolding fail
check_peer p c = if not (is_peer c.peer p) then fail StationFault.peer_mismatch c else (c, ok tt)

abbrev pub mismatch : UmacHeader → StationController → StationFault
mismatch h c =
    StationFault.interface_mismatch h.valid_ids c.ifaceindex h.ifaceindex c.wdev_id h.wdev_id

unfoldable pub check_header : {D : Type 0} → UmacHeader → Method D (Unit {0})
unfolding fail
check_header h c =
    if bit_set h.valid_ids 1 && not (h.ifaceindex == c.ifaceindex)
    then fail (mismatch h c) c
    else if bit_set h.valid_ids 0 && not (h.wdev_id == c.wdev_id)
    then fail (mismatch h c) c
    else (c, ok tt)

pub require_cases :
    {D : Type 0} (required : StationState) (c : StationController)
    → ((state_eq c.state required ≡ true) × (require {D = D} required c ≡ (c, ok tt)))
      ⊎ (require {D = D} required c ≡ (c, err (StationError.invalid_state c.state required)))
unfolding require
require_cases required c = elim (Bool-cases (state_eq c.state required)) [
  | inl e ↦ inl (e, rw (e, require))
  | inr e ↦ inr (rw (e, require))
]

pub require_one_of_cases :
    {D : Type 0} (first : StationState) (rest : List StationState) (c : StationController)
    → ((contains_state (first ∷ rest) c.state ≡ true)
        × (require_one_of {D = D} first rest c ≡ (c, ok tt)))
      ⊎ (require_one_of {D = D} first rest c ≡ (c, err (StationError.invalid_state c.state first)))
unfolding require_one_of
require_one_of_cases first rest c = elim (Bool-cases (contains_state (first ∷ rest) c.state)) [
  | inl e ↦ inl (e, rw (e, require_one_of))
  | inr e ↦ inr (rw (e, require_one_of))
]

pub check_header_cases :
    {D : Type 0} (h : UmacHeader) (c : StationController)
    → (check_header {D = D} h c ≡ (c, ok tt))
      ⊎ (check_header {D = D} h c
          ≡ (enter_fault (mismatch h c) c, err (StationError.faulted (mismatch h c))))
unfolding check_header
check_header_cases h c =
    elim (Bool-cases (bit_set h.valid_ids 1 && not (h.ifaceindex == c.ifaceindex))) [
      | inl e ↦ inr (rw (e, check_header))
      | inr e ↦ elim (Bool-cases (bit_set h.valid_ids 0 && not (h.wdev_id == c.wdev_id))) [
        | inl f ↦ inr (rw (e, f, check_header))
        | inr f ↦ inl (rw (e, f, check_header))
      ]
    ]
