-- ===== src/Station/Authorization/Commands.antt =====
-- No command authorizes the controlled port, but for the association with an open network.
use Prim.Native.Nat.{ℕ}
use embassy_zephyr_n_rf.Base.{◌≡◌, List, Bool, false, arith}
use embassy_zephyr_n_rf.Protocol.Types.{UmacCommand}
use embassy_zephyr_n_rf.Control.Types.{
  KeyConfig, PowerSaveState, AuthenticationRequest, AssociationRequest,
}
use embassy_zephyr_n_rf.Station.Types.{StationState, StationController}
use embassy_zephyr_n_rf.Station.Core.{transition, require_one_of, require}
use embassy_zephyr_n_rf.Base.{is_some}
use embassy_zephyr_n_rf.Station.Port.{
  CommandPort, Call, create_interface_call, set_regulatory_call, bring_up_call, bring_down_call,
  authorize_call, start_scan_call, request_scan_results_call, authenticate_call, associate_call,
  key_command_call, set_key_call, set_power_save_call, set_power_save_timeout_call, disconnect_call,
}
use embassy_zephyr_n_rf.Protocol.Types.{ScanReason, ScanRequest}
use embassy_zephyr_n_rf.Station.Commands.{
  Link, create_interface, set_regulatory, bring_up, bring_down, start_scan, request_scan_results,
  authenticate, associate, key_command, set_key, authorize, set_power_save, set_power_save_timeout,
  disconnect, issue, after_guard, with_peer, submit_disconnect, key_for, submit_key, require_peer,
  submit_association, submit,
}
use embassy_zephyr_n_rf.Station.Authorization.{OnlyIf}

-- The association with a network that has no security.
abbrev pub OpenAssociation : AssociationRequest → StationController → Type 0
OpenAssociation request c =
    (is_some request.security ≡ false) × (c.state ≡ StationState.authenticated)

abbrev pub CalledBy : Call → StationController → Type 0
CalledBy (associate_call request) c = OpenAssociation request c
CalledBy _ c = ⊥

module _ (port : CommandPort) where
  create_interface-OnlyIf :
      (mac name : List ℕ) (link : Link port)
      → OnlyIf ⊥ link.0 (create_interface port mac name link).0.0
  unfolding create_interface
  create_interface-OnlyIf mac name (c, d) = ground arith

  set_regulatory-OnlyIf :
      (country : List ℕ) (hint : ℕ) (force : Bool) (link : Link port)
      → OnlyIf ⊥ link.0 (set_regulatory port country hint force link).0.0
  unfolding set_regulatory
  set_regulatory-OnlyIf country hint force (c, d) = ground arith

  bring_up-OnlyIf : (link : Link port) → OnlyIf ⊥ link.0 (bring_up port link).0.0
  unfolding bring_up
  bring_up-OnlyIf (c, d) = ground arith

  bring_down-OnlyIf : (link : Link port) → OnlyIf ⊥ link.0 (bring_down port link).0.0
  unfolding bring_down
  bring_down-OnlyIf (c, d) = ground arith

  start_scan-OnlyIf :
      (request : ScanRequest) (link : Link port)
      → OnlyIf ⊥ link.0 (start_scan port request link).0.0
  unfolding start_scan
  start_scan-OnlyIf request (c, d) = ground arith

  request_scan_results-OnlyIf :
      (reason : ScanReason) (link : Link port)
      → OnlyIf ⊥ link.0 (request_scan_results port reason link).0.0
  unfolding request_scan_results
  request_scan_results-OnlyIf reason (c, d) = ground arith

  authenticate-OnlyIf :
      (request : AuthenticationRequest) (link : Link port)
      → OnlyIf ⊥ link.0 (authenticate port request link).0.0
  unfolding authenticate
  authenticate-OnlyIf request (c, d) = ground arith

  set_key-OnlyIf :
      (key : KeyConfig) (link : Link port) → OnlyIf ⊥ link.0 (set_key port key link).0.0
  unfolding set_key
  set_key-OnlyIf key (c, d) = ground arith

  authorize-OnlyIf : (link : Link port) → OnlyIf ⊥ link.0 (authorize port link).0.0
  unfolding authorize
  authorize-OnlyIf (c, d) = ground arith

  set_power_save-OnlyIf :
      (state : PowerSaveState) (link : Link port)
      → OnlyIf ⊥ link.0 (set_power_save port state link).0.0
  unfolding set_power_save
  set_power_save-OnlyIf state (c, d) = ground arith

  set_power_save_timeout-OnlyIf :
      (timeout_ms : ℕ) (link : Link port)
      → OnlyIf ⊥ link.0 (set_power_save_timeout port timeout_ms link).0.0
  unfolding set_power_save_timeout
  set_power_save_timeout-OnlyIf timeout_ms (c, d) = ground arith

  disconnect-OnlyIf :
      (reason_code : ℕ) (link : Link port) → OnlyIf ⊥ link.0 (disconnect port reason_code link).0.0
  unfolding disconnect after_guard submit_disconnect with_peer submit require_one_of transition
  disconnect-OnlyIf reason_code (c, d) = ground arith

  key_command-OnlyIf :
      (command : UmacCommand) (key : KeyConfig) (link : Link port)
      → OnlyIf ⊥ link.0 (key_command port command key link).0.0
  unfolding key_command after_guard key_for with_peer submit_key submit require_one_of transition
  key_command-OnlyIf command key (c, d) = ground arith

  associate-OnlyIf :
      (request : AssociationRequest) (link : Link port)
      → OnlyIf (OpenAssociation request link.0) link.0 (associate port request link).0.0
  unfolding associate after_guard require_peer submit_association submit require transition
  associate-OnlyIf request (c, d) = ground arith

  pub issue-OnlyIf :
      (call : Call) (link : Link port)
      → OnlyIf (CalledBy call link.0) link.0 (issue port call link).0.0
  unfolding issue
  issue-OnlyIf (create_interface_call mac name) = create_interface-OnlyIf mac name
  issue-OnlyIf (set_regulatory_call country hint force) = set_regulatory-OnlyIf country hint force
  issue-OnlyIf bring_up_call = bring_up-OnlyIf
  issue-OnlyIf bring_down_call = bring_down-OnlyIf
  issue-OnlyIf authorize_call = authorize-OnlyIf
  issue-OnlyIf (start_scan_call request) = start_scan-OnlyIf request
  issue-OnlyIf (request_scan_results_call reason) = request_scan_results-OnlyIf reason
  issue-OnlyIf (authenticate_call request) = authenticate-OnlyIf request
  issue-OnlyIf (associate_call request) = associate-OnlyIf request
  issue-OnlyIf (key_command_call command key) = key_command-OnlyIf command key
  issue-OnlyIf (set_key_call key) = set_key-OnlyIf key
  issue-OnlyIf (set_power_save_call state) = set_power_save-OnlyIf state
  issue-OnlyIf (set_power_save_timeout_call timeout_ms) = set_power_save_timeout-OnlyIf timeout_ms
  issue-OnlyIf (disconnect_call reason_code) = disconnect-OnlyIf reason_code
