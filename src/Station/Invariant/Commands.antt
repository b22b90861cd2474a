-- ===== src/Station/Invariant/Commands.antt =====
-- Every command keeps the invariant of the controller, whatever the device answers.
pub mod Direct
use Prim.Native.Nat.{ℕ}
use embassy_zephyr_n_rf.Base.{
  false, ◌≡◌, refl, List, [], ◌∷◌, Option, none, some, Bool, true, arith, Outcome, ok, err, panic,
  Outcome-cases, inl, inr,
}
use embassy_zephyr_n_rf.Protocol.Types.{UmacCommand}
use embassy_zephyr_n_rf.Control.Types.{
  KeyType, KeyConfig, PowerSaveState, AuthenticationRequest, AssociationRequest,
}
use embassy_zephyr_n_rf.Station.Types.{
  StationState, state_eq, StationFault, StationError, StationController,
}
use embassy_zephyr_n_rf.Station.Core.{
  require_one_of_cases, require_cases, is_peer, require_one_of, transition,
}
use embassy_zephyr_n_rf.Station.Port.{
  Message, key_message, associate_message, deauthenticate_message, CommandPort, Call,
  create_interface_call, set_regulatory_call, bring_up_call, bring_down_call, authorize_call,
  start_scan_call, request_scan_results_call, authenticate_call, associate_call, key_command_call,
  set_key_call, set_power_save_call, set_power_save_timeout_call, disconnect_call,
}
use embassy_zephyr_n_rf.Protocol.Types.{ScanReason, ScanRequest}
use embassy_zephyr_n_rf.Station.Commands.{
  require_peer_cases, Link, Command, Result, after_guard, submit, with_peer, submit_disconnect,
  submit_key, key_for, associating, submit_association, require_peer, after_authentication, pend,
  pend_return, create_interface, set_regulatory, bring_up, bring_down, start_scan,
  request_scan_results, authenticate, associate, key_command, set_key, authorize, set_power_save,
  set_power_save_timeout, disconnect, issue,
}
use embassy_zephyr_n_rf.Station.Invariant.{Inv, fault-Inv}
use embassy_zephyr_n_rf.Station.Invariant.Commands.Direct.{
  create_interface-Inv, set_regulatory-Inv, bring_up-Inv, bring_down-Inv, start_scan-Inv,
  request_scan_results-Inv, authenticate-Inv, set_key-Inv, authorize-Inv, set_power_save-Inv,
  set_power_save_timeout-Inv,
}

authenticated_state :
    (s : StationState)
    → state_eq s StationState.authenticated ≡ true
    → s ≡ StationState.authenticated
authenticated_state s e = ground arith

module _ (port : CommandPort) where
  submit-keeps :
      (P : StationController → Type 0) (m : Message) (next : StationController → StationController)
      (link : Link port)
      → P link.0
      → P (next link.0)
      → P (submit port m next link).0.0
  unfolding submit
  submit-keeps P m next (c, d) old new = elim (Outcome-cases (port.encode m)) [
    | inl (bytes, e) ↦ rw (e, submit) (sent (port.send_control_reliable bytes d))
    | inr (inl (x, e)) ↦ rw (e, submit) old
    | inr (inr e) ↦ rw (e, submit) old
  ]
    where
      sent :
          (r : port.Device × Outcome port.DeviceError (Unit {0}))
          → P (
              let (d', o) = r in
              (elim o as (λ _. Link port × Result port) [
                | ok _ ↦ ((next c, d'), ok tt)
                | err x ↦ ((c, d'), err (StationError.device x))
                | panic ↦ ((c, d'), panic)
              ]).0.0)
      sent (d', ok _) = new
      sent (d', err x) = old
      sent (d', panic) = old

  with_peer-keeps :
      (P : StationController → Type 0) (p : Option (List ℕ)) (rest : List ℕ → Command port)
      (link : Link port)
      → P link.0
      → ((q : List ℕ) → p ≡ some q → P (rest q link).0.0)
      → P (with_peer port p rest link).0.0
  unfolding with_peer
  with_peer-keeps P none rest link old keep = old
  with_peer-keeps P (some q) rest link old keep = keep q refl

  disconnecting-Inv :
      (c : StationController)
      → Inv c
      → Inv (pend_return port UmacCommand.deauthenticate none StationState.disconnecting c)
  unfolding transition
  disconnecting-Inv c v = ground arith

  securing-Inv :
      (command : UmacCommand) (c : StationController)
      → Inv c
      → Inv (pend port command StationState.securing c)
  unfolding transition
  securing-Inv command c v = ground arith

  submit_disconnect-Inv :
      (reason_code : ℕ) (link : Link port)
      → Inv link.0
      → Inv (submit_disconnect port reason_code link).0.0
  unfolding submit_disconnect
  submit_disconnect-Inv reason_code (c, d) v =
      with_peer-keeps Inv c.peer _ (c, d) v
        λ q _.
          submit-keeps Inv (deauthenticate_message c.wdev_id q reason_code false) _ (c, d) v
            (disconnecting-Inv c v)

  require_one_of_guarded :
      (first : StationState) (others : List StationState) (rest : Command port) (link : Link port)
      → Inv link.0
      → ((d : port.Device) → Inv (rest (link.0, d)).0.0)
      → Inv (after_guard port (require_one_of first others) rest link).0.0
  unfolding after_guard
  require_one_of_guarded first others rest (c, d) v keep =
      elim (require_one_of_cases {D = port.DeviceError} first others c) [
        | inl (_, e) ↦ rw e (keep d)
        | inr e ↦ rw e v
      ]

  disconnect-Inv :
      (reason_code : ℕ) (link : Link port) → Inv link.0 → Inv (disconnect port reason_code link).0.0
  unfolding disconnect
  disconnect-Inv reason_code link v =
      require_one_of_guarded StationState.authenticated (after_authentication port)
        (submit_disconnect port reason_code) link v
        (λ d. submit_disconnect-Inv reason_code (link.0, d) v)

  submit_key-Inv :
      (command : UmacCommand) (key : KeyConfig) (p : Option (List ℕ)) (link : Link port)
      → Inv link.0
      → Inv (submit_key port command key p link).0.0
  unfolding submit_key
  submit_key-Inv command key p (c, d) v =
      submit-keeps Inv (key_message c.wdev_id command p key) _ (c, d) v (securing-Inv command c v)

  key_for-Inv :
      (command : UmacCommand) (key : KeyConfig) (t : KeyType) (link : Link port)
      → Inv link.0
      → Inv (key_for port command key t link).0.0
  unfolding key_for
  key_for-Inv command key KeyType.group (c, d) v = submit_key-Inv command key none (c, d) v
  key_for-Inv command key KeyType.pairwise (c, d) v =
      with_peer-keeps Inv c.peer _ (c, d) v λ q _. submit_key-Inv command key (some q) (c, d) v
  key_for-Inv command key KeyType.peer (c, d) v =
      with_peer-keeps Inv c.peer _ (c, d) v λ q _. submit_key-Inv command key (some q) (c, d) v

  key_command-Inv :
      (command : UmacCommand) (key : KeyConfig) (link : Link port)
      → Inv link.0
      → Inv (key_command port command key link).0.0
  unfolding key_command
  key_command-Inv command key link v =
      require_one_of_guarded StationState.securing
        (StationState.authorizing ∷ StationState.connected ∷ [])
        (key_for port command key key.key_type) link v
        (λ d. key_for-Inv command key key.key_type (link.0, d) v)

  associating-Inv :
      (request : AssociationRequest) (c : StationController)
      → Inv c
      → c.state ≡ StationState.authenticated
      → is_peer c.peer request.bssid ≡ true
      → Inv (associating port request c)
  unfolding transition
  associating-Inv request c v s p = ground arith

  submit_association-Inv :
      (request : AssociationRequest) (link : Link port)
      → Inv link.0
      → link.0.state ≡ StationState.authenticated
      → is_peer link.0.peer request.bssid ≡ true
      → Inv (submit_association port request link).0.0
  unfolding submit_association
  submit_association-Inv request (c, d) v s p =
      submit-keeps Inv (associate_message c.wdev_id request) _ (c, d) v
        (associating-Inv request c v s p)

  peer_guarded-Inv :
      (request : AssociationRequest) (link : Link port)
      → Inv link.0
      → link.0.state ≡ StationState.authenticated
      → Inv
          (after_guard port
            (require_peer port request.bssid)
            (submit_association port request)
            link).0.0
  unfolding after_guard
  peer_guarded-Inv request (c, d) v s = elim (require_peer_cases port request.bssid c) [
    | inl (p, e) ↦ rw e (submit_association-Inv request (c, d) v s p)
    | inr e ↦ rw e (fault-Inv StationFault.peer_mismatch c v)
  ]

  associate-Inv :
      (request : AssociationRequest) (link : Link port)
      → Inv link.0
      → Inv (associate port request link).0.0
  unfolding associate after_guard
  associate-Inv request (c, d) v =
      elim (require_cases {D = port.DeviceError} StationState.authenticated c) [
        | inl (s, e) ↦ rw e (peer_guarded-Inv request (c, d) v (authenticated_state c.state s))
        | inr e ↦ rw e v
      ]

  -- Each command keeps the invariant, accepted or refused, delivered or not.
  pub issue-Inv : (call : Call) (link : Link port) → Inv link.0 → Inv (issue port call link).0.0
  unfolding issue
  issue-Inv (create_interface_call mac name) = create_interface-Inv port mac name
  issue-Inv (set_regulatory_call country hint force) = set_regulatory-Inv port country hint force
  issue-Inv bring_up_call = bring_up-Inv port
  issue-Inv bring_down_call = bring_down-Inv port
  issue-Inv authorize_call = authorize-Inv port
  issue-Inv (start_scan_call request) = start_scan-Inv port request
  issue-Inv (request_scan_results_call reason) = request_scan_results-Inv port reason
  issue-Inv (authenticate_call request) = authenticate-Inv port request
  issue-Inv (associate_call request) = associate-Inv request
  issue-Inv (key_command_call command key) = key_command-Inv command key
  issue-Inv (set_key_call key) = set_key-Inv port key
  issue-Inv (set_power_save_call state) = set_power_save-Inv port state
  issue-Inv (set_power_save_timeout_call timeout_ms) = set_power_save_timeout-Inv port timeout_ms
  issue-Inv (disconnect_call reason_code) = disconnect-Inv reason_code
