-- ===== src/Station/Encoders/Sent/Commands.antt =====
-- station.rs with its encoders: the commands that need a peer, and all of them.
use Prim.Native.Nat.{ℕ, ◌^◌, ◌<◌}
use embassy_zephyr_n_rf.Base.{
  ap, ◌≡◌, inl, inr, refl, List, [], ◌∷◌, true, false, Option, none, some, Outcome, arith, length,
}
use embassy_zephyr_n_rf.Protocol.Types.{UmacCommand}
use embassy_zephyr_n_rf.Control.Types.{KeyType, KeyConfig, AssociationRequest}
use embassy_zephyr_n_rf.Control.Encode.Lengths.{IsKey}
use embassy_zephyr_n_rf.Control.Commands.Lengths.{IsAssociation, IsOptionalAddress}
use embassy_zephyr_n_rf.Station.Types.{StationState, StationFault, StationController}
use embassy_zephyr_n_rf.Station.Core.{transition, require_cases, require_one_of_cases}
use embassy_zephyr_n_rf.Station.Port.{Message, Call}
use embassy_zephyr_n_rf.Station.Commands.{
  after_guard, submit_disconnect, submit_key, key_for, associating, submit_association,
  require_peer_cases, after_authentication, pend, pend_return, associate, key_command, authorize,
  disconnect, issue,
}
use embassy_zephyr_n_rf.Station.Encoders.Deliver.Packets.{IsKeyCommand}
use embassy_zephyr_n_rf.Station.Encoders.Sent.{
  for_peer, expected_key, expected, Expected, IsCall, recording, Sends, submit-Sends,
  with_peer-Sends, refused, faulted,
}
use embassy_zephyr_n_rf.Station.Encoders.Sent.Direct.{
  create_interface-Sends, set_regulatory-Sends, bring_up-Sends, bring_down-Sends, start_scan-Sends,
  request_scan_results-Sends, authenticate-Sends, set_key-Sends, set_power_save-Sends,
  set_power_save_timeout-Sends,
}

peer_address :
    (peer : Option (List ℕ)) (p : List ℕ) → IsOptionalAddress peer → peer ≡ some p → length p ≡ 6
peer_address none p a e = ground arith
peer_address (some q) p a e = ground (arith, a)

module _ (E : Type 0) (answer : List ℕ → List (List ℕ) → Outcome E (Unit {0})) where
  authorize-Sends :
      (c : StationController) (log : List (List ℕ))
      → IsOptionalAddress c.peer
      → c.wdev_id < 2 ^ 32
      → Sends E answer
          (expected Call.authorize_call c)
          c.wdev_id
          log
          (authorize (recording E answer) (c, log))
  unfolding authorize after_guard transition
  authorize-Sends c log a w = elim (require_cases {D = E} StationState.securing c) [
    | inl (_, e) ↦ rw e (
        with_peer-Sends E answer _ c.peer _ c log λ p q.
          submit-Sends E answer _ (Message.station_authorized_message c.wdev_id p true)
            (pend (recording E answer) UmacCommand.set_station StationState.authorizing) c log
            (ap (for_peer _) q) (peer_address c.peer p a q) w (inl refl) refl)
    | inr e ↦ rw e (refused E answer _ c log _ _)
  ]

  submit_disconnect-Sends :
      (reason_code : ℕ) (c : StationController) (log : List (List ℕ))
      → IsOptionalAddress c.peer
      → c.wdev_id < 2 ^ 32
      → Sends E answer
          (expected (Call.disconnect_call reason_code) c)
          c.wdev_id
          log
          (submit_disconnect (recording E answer) reason_code (c, log))
  unfolding submit_disconnect transition
  submit_disconnect-Sends reason_code c log a w = with_peer-Sends E answer _ c.peer _ c log λ p q.
      submit-Sends E answer _ (Message.deauthenticate_message c.wdev_id p reason_code false)
        (pend_return (recording E answer) UmacCommand.deauthenticate none
          StationState.disconnecting)
        c log (ap (for_peer _) q) (peer_address c.peer p a q) w (inl refl) refl

  disconnect-Sends :
      (reason_code : ℕ) (c : StationController) (log : List (List ℕ))
      → IsOptionalAddress c.peer
      → c.wdev_id < 2 ^ 32
      → Sends E answer
          (expected (Call.disconnect_call reason_code) c)
          c.wdev_id
          log
          (disconnect (recording E answer) reason_code (c, log))
  unfolding disconnect after_guard
  disconnect-Sends reason_code c log a w =
      elim (require_one_of_cases {D = E} StationState.authenticated
        (after_authentication (recording E answer)) c) [
          | inl (_, e) ↦ rw e (submit_disconnect-Sends reason_code c log a w)
          | inr e ↦ rw e (refused E answer _ c log _ _)
        ]

  submit_key-Sends :
      (x : Expected) (command : UmacCommand) (key : KeyConfig) (peer : Option (List ℕ))
      (c : StationController) (log : List (List ℕ))
      → x ≡ Expected.send_message (Message.key_message c.wdev_id command peer key)
      → IsKeyCommand command × IsOptionalAddress peer × IsKey key
      → c.wdev_id < 2 ^ 32
      → Sends E answer x c.wdev_id log (submit_key (recording E answer) command key peer (c, log))
  unfolding submit_key transition
  submit_key-Sends x command key peer c log same v w =
      submit-Sends E answer x (Message.key_message c.wdev_id command peer key)
        (pend (recording E answer) command StationState.securing) c log same v w (inl refl) refl

  key_for-Sends :
      (command : UmacCommand) (key : KeyConfig) (kind : KeyType) (c : StationController)
      (log : List (List ℕ))
      → IsKeyCommand command × IsKey key
      → IsOptionalAddress c.peer
      → c.wdev_id < 2 ^ 32
      → Sends E answer
          (expected_key command key kind c)
          c.wdev_id
          log
          (key_for (recording E answer) command key kind (c, log))
  unfolding key_for
  key_for-Sends command key KeyType.group c log (v, k) a w =
      submit_key-Sends _ command key none c log refl (v, tt, k) w
  key_for-Sends command key KeyType.pairwise c log (v, k) a w =
      with_peer-Sends E answer _ c.peer _ c log λ p q.
        submit_key-Sends _ command key (some p) c log (ap (for_peer _) q)
          (v, peer_address c.peer p a q, k) w
  key_for-Sends command key KeyType.peer c log (v, k) a w =
      with_peer-Sends E answer _ c.peer _ c log λ p q.
        submit_key-Sends _ command key (some p) c log (ap (for_peer _) q)
          (v, peer_address c.peer p a q, k) w

  key_command-Sends :
      (command : UmacCommand) (key : KeyConfig) (c : StationController) (log : List (List ℕ))
      → IsKeyCommand command × IsKey key
      → IsOptionalAddress c.peer
      → c.wdev_id < 2 ^ 32
      → Sends E answer
          (expected (Call.key_command_call command key) c)
          c.wdev_id
          log
          (key_command (recording E answer) command key (c, log))
  unfolding key_command after_guard
  key_command-Sends command key c log v a w =
      elim (require_one_of_cases {D = E} StationState.securing
        (StationState.authorizing ∷ StationState.connected ∷ []) c) [
          | inl (_, e) ↦ rw e (key_for-Sends command key key.key_type c log v a w)
          | inr e ↦ rw e (refused E answer _ c log _ _)
        ]

  associate-Sends :
      (request : AssociationRequest) (c : StationController) (log : List (List ℕ))
      → IsAssociation request
      → c.wdev_id < 2 ^ 32
      → Sends E answer
          (expected (Call.associate_call request) c)
          c.wdev_id
          log
          (associate (recording E answer) request (c, log))
  unfolding associate after_guard submit_association transition
  associate-Sends request c log v w = elim (require_cases {D = E} StationState.authenticated c) [
    | inl (_, e) ↦ elim (require_peer_cases (recording E answer) request.bssid c) [
      | inl (_, q) ↦
          rw (e, q)
            (submit-Sends E answer _ (Message.associate_message c.wdev_id request)
              (associating (recording E answer) request) c log refl v w (inl refl) refl)
      | inr q ↦ rw (e, q) (faulted E answer _ c.wdev_id _ log StationFault.peer_mismatch)
    ]
    | inr e ↦ rw e (refused E answer _ c log _ _)
  ]

  -- Whatever the device answers to a command within the limits of the firmware's structures, on a
  -- controller whose device number has 32 bits and whose peer, if it has one, has an address of 6
  -- bytes: a command that succeeds hands the device one message, the one that the command stands for,
  -- encoded from its arguments, and the parsers read from it the command that is now pending, for the
  -- controller's device or, when it sets the regulatory domain, for none, and a body of that message's
  -- length; only the creation of the interface of device 0 sends nothing and leaves nothing pending. A
  -- command that fails in the device handed it that message, every other failure sends nothing, and no
  -- encoder fails.
  pub issue-Sends :
      (call : Call) (c : StationController) (log : List (List ℕ))
      → IsCall call
      → IsOptionalAddress c.peer
      → c.wdev_id < 2 ^ 32
      → Sends E answer (expected call c) c.wdev_id log (issue (recording E answer) call (c, log))
  unfolding issue
  issue-Sends (Call.create_interface_call mac name) c log v a w =
      create_interface-Sends E answer mac name c log v.0 v.1 w
  issue-Sends (Call.set_regulatory_call country hint force) c log v a w =
      set_regulatory-Sends E answer country hint force c log v w
  issue-Sends Call.bring_up_call c log v a w = bring_up-Sends E answer c log w
  issue-Sends Call.bring_down_call c log v a w = bring_down-Sends E answer c log w
  issue-Sends Call.authorize_call c log v a w = authorize-Sends c log a w
  issue-Sends (Call.start_scan_call request) c log v a w =
      start_scan-Sends E answer request c log v w
  issue-Sends (Call.request_scan_results_call reason) c log v a w =
      request_scan_results-Sends E answer reason c log w
  issue-Sends (Call.authenticate_call request) c log v a w =
      authenticate-Sends E answer request c log v w
  issue-Sends (Call.associate_call request) c log v a w = associate-Sends request c log v w
  issue-Sends (Call.key_command_call command key) c log v a w =
      key_command-Sends command key c log v a w
  issue-Sends (Call.set_key_call key) c log v a w = set_key-Sends E answer key c log v w
  issue-Sends (Call.set_power_save_call state) c log v a w =
      set_power_save-Sends E answer state c log w
  issue-Sends (Call.set_power_save_timeout_call timeout_ms) c log v a w =
      set_power_save_timeout-Sends E answer timeout_ms c log v w
  issue-Sends (Call.disconnect_call reason_code) c log v a w =
      disconnect-Sends reason_code c log a w
