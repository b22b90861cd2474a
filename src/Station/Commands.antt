-- ===== src/Station/Commands.antt =====
-- station.rs: the commands. Each checks the state, encodes its message, and lets the device send it.
use Prim.Native.Nat.{ℕ, ◌^◌}
use embassy_zephyr_n_rf.Base.{
  inr, inl, Bool-cases, ◌⊎◌, ◌≡◌, List, [], ◌∷◌, Option, none, some, Bool, true, false, not, leb,
  ◌==◌, if◌then◌else◌, Outcome, ok, err, panic,
}
use embassy_zephyr_n_rf.Protocol.Types.{ProtocolError, UmacCommand}
use embassy_zephyr_n_rf.Control.Types.{
  KeyType, KeyConfig, PowerSaveState, AuthenticationRequest, AssociationRequest,
}
use embassy_zephyr_n_rf.Station.Port.{
  Message, new_interface_message, set_regulatory_message, interface_flags_message, scan_message,
  get_scan_results_message, authenticate_message, associate_message, key_message, set_key_message,
  station_authorized_message, power_save_message, power_save_timeout_message,
  deauthenticate_message, CommandPort, Call, create_interface_call, set_regulatory_call,
  bring_up_call, bring_down_call, authorize_call, start_scan_call, request_scan_results_call,
  authenticate_call, associate_call, key_command_call, set_key_call, set_power_save_call,
  set_power_save_timeout_call, disconnect_call,
}
use embassy_zephyr_n_rf.Protocol.Types.{ScanReason, ScanRequest}
use embassy_zephyr_n_rf.Station.Types.{StationState, StationFault, StationError, StationController}
use embassy_zephyr_n_rf.Station.Core.{
  enter_fault, Method, is_peer, transition, fail, require, require_one_of,
}
use embassy_zephyr_n_rf.Base.{is_some}

module _ (port : CommandPort) where
  open port use {Device, DeviceError, encode, send_control_reliable}

  abbrev pub Link : Type 0
  Link = StationController × Device

  abbrev pub Result : Type 0
  Result = Outcome (StationError DeviceError) (Unit {0})

  -- A command changes the controller and the device.
  abbrev pub Command : Type 0
  Command = Link → Link × Result

  resume : Command → Device → StationController × Result → Link × Result
  resume rest d (c, ok _) = rest (c, d)
  resume rest d (c, err e) = ((c, d), err e)
  resume rest d (c, panic) = ((c, d), panic)

  -- A guard that reads or faults the controller, and then the rest.
  unfoldable pub after_guard : Method DeviceError (Unit {0}) → Command → Command
  unfolding resume
  after_guard guard rest (c, d) = resume rest d (guard c)

  -- `submit_station_command!`, and the state change that follows it.
  unfoldable pub submit : Message → (StationController → StationController) → Command
  submit message next (c, d) = elim (encode message) [
    | err e ↦ ((c, d), err (StationError.protocol e))
    | panic ↦ ((c, d), panic)
    | ok bytes ↦
        let (d', r) = send_control_reliable bytes d in
        elim r [
          | ok _ ↦ ((next c, d'), ok tt)
          | err e ↦ ((c, d'), err (StationError.device e))
          | panic ↦ ((c, d'), panic)
        ]
  ]

  abbrev pub pend : UmacCommand → StationState → StationController → StationController
  pend command state c = transition state (record c { pending_command = some command })

  abbrev pub pend_return :
      UmacCommand → Option StationState → StationState → StationController → StationController
  pend_return command back state c =
      transition state (record c { pending_command = some command; pending_return_state = back })

  claim_firmware_default_interface : StationController → StationController
  claim_firmware_default_interface c =
      transition StationState.down
        (record c { interface_created = true; pending_command = none; pending_return_state = none })

  unfoldable pub create_interface : List ℕ → List ℕ → Command
  unfolding after_guard submit claim_firmware_default_interface require transition
  create_interface mac_address interface_name = after_guard (require StationState.down) λ (c, d).
      if c.interface_created
      then ((c, d), err StationError.interface_already_created)
      else if c.wdev_id == 0
      then ((claim_firmware_default_interface c, d), ok tt)
      else submit (new_interface_message c.wdev_id mac_address interface_name)
          (pend UmacCommand.new_interface StationState.interface_create_pending) (c, d)

  unfoldable pub set_regulatory : List ℕ → ℕ → Bool → Command
  unfolding after_guard submit require_one_of transition
  set_regulatory country user_hint_type force =
      after_guard (require_one_of StationState.down (StationState.idle ∷ [])) λ (c, d).
        submit (set_regulatory_message c.wdev_id country user_hint_type force)
          (pend_return UmacCommand.request_set_regulatory (some c.state)
            StationState.regulatory_pending)
          (c, d)

  unfoldable pub bring_up : Command
  unfolding after_guard submit require transition
  bring_up = after_guard (require StationState.down) λ (c, d).
      if not c.interface_created
      then ((c, d), err StationError.interface_not_created)
      else submit (interface_flags_message c.wdev_id true c.firmware_index)
          (pend UmacCommand.set_interface_flags StationState.interface_up_pending) (c, d)

  unfoldable pub bring_down : Command
  unfolding after_guard submit require_one_of transition
  bring_down =
      after_guard
        (require_one_of StationState.idle (StationState.connected ∷ StationState.fault ∷ []))
        λ (c, d).
          if not c.interface_created
          then ((c, d), err StationError.interface_not_created)
          else submit (interface_flags_message c.wdev_id false c.firmware_index)
              (pend_return UmacCommand.set_interface_flags none StationState.interface_down_pending)
              (c, d)

  unfoldable pub start_scan : ScanRequest → Command
  unfolding after_guard submit require transition
  start_scan request = after_guard (require StationState.idle) λ (c, d).
      submit (scan_message c.wdev_id request) (pend UmacCommand.trigger_scan StationState.scanning)
        (c, d)

  unfoldable pub request_scan_results : ScanReason → Command
  unfolding after_guard submit require transition
  request_scan_results reason = after_guard (require StationState.scan_complete) λ (c, d).
      submit (get_scan_results_message c.wdev_id reason)
        (pend UmacCommand.get_scan_results StationState.reading_scan_results) (c, d)

  unfoldable pub authenticate : AuthenticationRequest → Command
  unfolding after_guard submit require transition
  authenticate request = after_guard (require StationState.idle) λ (c, d).
      submit (authenticate_message c.wdev_id request)
        (λ c'.
          pend UmacCommand.authenticate StationState.authenticating
            (record c' { peer = some request.bssid }))
        (c, d)

  -- `if self.peer != Some(request.bssid) { return self.fail(..) }`
  unfoldable pub require_peer : List ℕ → Method DeviceError (Unit {0})
  unfolding fail
  require_peer bssid c =
      if not (is_peer c.peer bssid) then fail StationFault.peer_mismatch c else (c, ok tt)

  abbrev pub associating : AssociationRequest → StationController → StationController
  associating request c = pend UmacCommand.associate StationState.associating (record c {
    secure_connection = is_some request.security;
    controlled_port_authorized = not (is_some request.security);
  })

  pub require_peer_cases :
      (bssid : List ℕ) (c : StationController)
      → ((is_peer c.peer bssid ≡ true) × (require_peer bssid c ≡ (c, ok tt)))
        ⊎ (require_peer bssid c ≡ (
          enter_fault StationFault.peer_mismatch c,
          err (StationError.faulted StationFault.peer_mismatch),
        ))
  unfolding require_peer
  require_peer_cases bssid c = elim (Bool-cases (is_peer c.peer bssid)) [
    | inl e ↦ inl (e, rw (e, require_peer))
    | inr e ↦ inr (rw (e, require_peer))
  ]

  unfoldable pub submit_association : AssociationRequest → Command
  submit_association request (c, d) =
      submit (associate_message c.wdev_id request) (associating request) (c, d)

  unfoldable pub associate : AssociationRequest → Command
  associate request =
      after_guard (require StationState.authenticated)
        (after_guard (require_peer request.bssid) (submit_association request))

  -- `self.peer.ok_or(..)`, and the rest.
  unfoldable pub with_peer : Option (List ℕ) → (List ℕ → Command) → Command
  with_peer none rest link = (link, err (StationError.faulted StationFault.peer_mismatch))
  with_peer (some p) rest link = rest p link

  unfoldable pub submit_key : UmacCommand → KeyConfig → Option (List ℕ) → Command
  submit_key command key p (c, d) =
      submit (key_message c.wdev_id command p key) (pend command StationState.securing) (c, d)

  unfoldable pub key_for : UmacCommand → KeyConfig → KeyType → Command
  key_for command key KeyType.group (c, d) = submit_key command key none (c, d)
  key_for command key KeyType.pairwise (c, d) =
      with_peer c.peer (λ p. submit_key command key (some p)) (c, d)
  key_for command key KeyType.peer (c, d) =
      with_peer c.peer (λ p. submit_key command key (some p)) (c, d)

  unfoldable pub key_command : UmacCommand → KeyConfig → Command
  key_command command key =
      after_guard
        (require_one_of StationState.securing
          (StationState.authorizing ∷ StationState.connected ∷ []))
        (key_for command key key.key_type)

  unfoldable pub set_key : KeyConfig → Command
  unfolding after_guard submit require transition
  set_key key = after_guard (require StationState.securing) λ (c, d).
      submit (set_key_message c.wdev_id key) (pend UmacCommand.set_key StationState.securing) (c, d)

  unfoldable pub authorize : Command
  unfolding after_guard submit with_peer require transition
  authorize = after_guard (require StationState.securing) λ (c, d).
      with_peer c.peer
        (λ p.
          submit (station_authorized_message c.wdev_id p true)
            (pend UmacCommand.set_station StationState.authorizing))
        (c, d)

  unfoldable pub set_power_save : PowerSaveState → Command
  unfolding after_guard submit require_one_of transition
  set_power_save state =
      after_guard (require_one_of StationState.idle (StationState.connected ∷ [])) λ (c, d).
        submit (power_save_message c.wdev_id state)
          (pend_return UmacCommand.set_power_save (some c.state) StationState.power_save_pending)
          (c, d)

  -- An `i32` below zero has its top bit set.
  unfoldable pub set_power_save_timeout : ℕ → Command
  unfolding after_guard submit require_one_of transition
  set_power_save_timeout timeout_ms =
      after_guard (require_one_of StationState.idle (StationState.connected ∷ [])) λ (c, d).
        if leb (2 ^ 31) timeout_ms
        then ((c, d), err (StationError.protocol (ProtocolError.invalid_value timeout_ms)))
        else submit (power_save_timeout_message c.wdev_id timeout_ms)
            (pend_return UmacCommand.set_power_save_timeout (some c.state)
              StationState.power_save_pending)
            (c, d)

  unfoldable pub submit_disconnect : ℕ → Command
  submit_disconnect reason_code (c, d) =
      with_peer c.peer
        (λ p.
          submit (deauthenticate_message c.wdev_id p reason_code false)
            (pend_return UmacCommand.deauthenticate none StationState.disconnecting))
        (c, d)

  abbrev pub after_authentication : List StationState
  after_authentication =
      StationState.associating ∷ StationState.securing ∷ StationState.authorizing
      ∷ StationState.awaiting_carrier ∷ StationState.connected ∷ []

  unfoldable pub disconnect : ℕ → Command
  disconnect reason_code =
      after_guard (require_one_of StationState.authenticated after_authentication)
        (submit_disconnect reason_code)

  unfoldable pub issue : Call → Command
  issue (create_interface_call mac name) = create_interface mac name
  issue (set_regulatory_call country hint force) = set_regulatory country hint force
  issue bring_up_call = bring_up
  issue bring_down_call = bring_down
  issue authorize_call = authorize
  issue (start_scan_call request) = start_scan request
  issue (request_scan_results_call reason) = request_scan_results reason
  issue (authenticate_call request) = authenticate request
  issue (associate_call request) = associate request
  issue (key_command_call command key) = key_command command key
  issue (set_key_call key) = set_key key
  issue (set_power_save_call state) = set_power_save state
  issue (set_power_save_timeout_call timeout_ms) = set_power_save_timeout timeout_ms
  issue (disconnect_call reason_code) = disconnect reason_code
