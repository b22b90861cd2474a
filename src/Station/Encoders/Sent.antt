-- ===== src/Station/Encoders/Sent.antt =====
-- station.rs with its encoders: what a message of the controller hands to the device.
pub mod Direct
pub mod Commands
use Prim.Native.Nat.{ℕ, ◌^◌, ◌<◌, ◌≤◌}
use embassy_zephyr_n_rf.Base.{
  ◌≡◌, ◌⊎◌, inl, inr, leb, if◌then◌else◌, refl, append-nil, List, [], ◌∷◌, ◌++◌, Bool, true, false,
  Option, none, some, not, ◌==◌, Bool-cases, Outcome, ok, err, panic, arith, length,
}
use embassy_zephyr_n_rf.Protocol.Types.{ProtocolError, UmacCommand, ScanReason, ScanRequest}
use embassy_zephyr_n_rf.Protocol.Umac.Header.{header_of, received}
use embassy_zephyr_n_rf.Protocol.Commands.Lengths.{IsScan}
use embassy_zephyr_n_rf.Control.Types.{
  KeyType, KeyConfig, PowerSaveState, AuthenticationRequest, AssociationRequest,
}
use embassy_zephyr_n_rf.Base.{unwrap_or}
use embassy_zephyr_n_rf.Control.Encode.Packet.{valid_bits}
use embassy_zephyr_n_rf.Control.Encode.Lengths.{IsKey}
use embassy_zephyr_n_rf.Control.Commands.Lengths.{
  IsAuthentication, IsAssociation, IsOptionalAddress,
}
use embassy_zephyr_n_rf.Station.Types.{StationState, StationFault, StationError, StationController}
use embassy_zephyr_n_rf.Station.Core.{
  Method, require, require_one_of, transition, require_cases, require_one_of_cases,
}
use embassy_zephyr_n_rf.Station.Port.{Message, CommandPort, Call}
use embassy_zephyr_n_rf.Station.Commands.{
  Link, Command, Result, after_guard, submit, with_peer, submit_disconnect, submit_key, key_for,
  associating, submit_association, require_peer, require_peer_cases, after_authentication, pend,
  pend_return, create_interface, set_regulatory, bring_up, bring_down, start_scan,
  request_scan_results, authenticate, associate, key_command, set_key, authorize, set_power_save,
  set_power_save_timeout, disconnect, issue,
}
use embassy_zephyr_n_rf.Station.Encoders.{encode_message, message_command, message_device}
use embassy_zephyr_n_rf.Station.Encoders.Deliver.{encode_message-received}
use embassy_zephyr_n_rf.Station.Encoders.Deliver.Packets.{
  IsCountry, IsKeyCommand, IsEncodable, body_len,
}

-- The message, encoded, stands at the head of the log, and the parsers find its command, device and
-- body.
abbrev pub Carries : Message → List (List ℕ) → List (List ℕ) → Type 0
Carries m log log' =
    (bytes : List ℕ) × (body : List ℕ) × (encode_message m ≡ ok bytes)
    × (log' ≡ bytes ∷ log)
    × (received bytes
        ≡ ok (
          header_of (message_command m) (valid_bits (message_device m))
              (unwrap_or (message_device m) 0),
          body,
        ))
    × (length body ≡ body_len m)

-- The message is for the device, or sets the regulatory domain.
abbrev pub IsFor : ℕ → Message → Type 0
IsFor wdev_id m = (message_device m ≡ some wdev_id) ⊎ (message_device m ≡ none)

-- What a command is to do: send one message, claim the default interface, or neither.
pub data Expected : Type 0 where
  send_message : Message → Expected
  claim_interface no_message : Expected

-- The message that the selected peer stands in, if there is a peer.
abbrev pub for_peer : (List ℕ → Message) → Option (List ℕ) → Expected
for_peer message none = Expected.no_message
for_peer message (some peer) = Expected.send_message (message peer)

-- A group key is for no peer, the other keys are for the selected one.
abbrev pub expected_key : UmacCommand → KeyConfig → KeyType → StationController → Expected
expected_key command key KeyType.group c =
    Expected.send_message (Message.key_message c.wdev_id command none key)
expected_key command key KeyType.pairwise c =
    for_peer (λ peer. Message.key_message c.wdev_id command (some peer) key) c.peer
expected_key command key KeyType.peer c =
    for_peer (λ peer. Message.key_message c.wdev_id command (some peer) key) c.peer

-- The message that a command stands for, with the arguments of the command, in the controller's
-- present state.
abbrev pub expected : Call → StationController → Expected
expected (Call.create_interface_call mac name) c =
    if c.wdev_id == 0
    then Expected.claim_interface
    else Expected.send_message (Message.new_interface_message c.wdev_id mac name)
expected (Call.set_regulatory_call country hint force) c =
    Expected.send_message (Message.set_regulatory_message c.wdev_id country hint force)
expected Call.bring_up_call c =
    Expected.send_message (Message.interface_flags_message c.wdev_id true c.firmware_index)
expected Call.bring_down_call c =
    Expected.send_message (Message.interface_flags_message c.wdev_id false c.firmware_index)
expected (Call.start_scan_call request) c =
    Expected.send_message (Message.scan_message c.wdev_id request)
expected (Call.request_scan_results_call reason) c =
    Expected.send_message (Message.get_scan_results_message c.wdev_id reason)
expected (Call.authenticate_call request) c =
    Expected.send_message (Message.authenticate_message c.wdev_id request)
expected (Call.associate_call request) c =
    Expected.send_message (Message.associate_message c.wdev_id request)
expected (Call.key_command_call command key) c = expected_key command key key.key_type c
expected (Call.set_key_call key) c = Expected.send_message (Message.set_key_message c.wdev_id key)
expected Call.authorize_call c =
    for_peer (λ peer. Message.station_authorized_message c.wdev_id peer true) c.peer
expected (Call.set_power_save_call state) c =
    Expected.send_message (Message.power_save_message c.wdev_id state)
expected (Call.set_power_save_timeout_call timeout_ms) c =
    Expected.send_message (Message.power_save_timeout_message c.wdev_id timeout_ms)
expected (Call.disconnect_call reason_code) c =
    for_peer (λ peer. Message.deauthenticate_message c.wdev_id peer reason_code false) c.peer

-- The arguments of the command are within the limits of the firmware's structures.
abbrev pub IsCall : Call → Type 0
IsCall (Call.create_interface_call mac name) = (length mac ≡ 6) × (length name ≤ 16)
IsCall (Call.set_regulatory_call country hint force) = IsCountry country
IsCall (Call.start_scan_call request) = IsScan request
IsCall (Call.authenticate_call request) = IsAuthentication request
IsCall (Call.associate_call request) = IsAssociation request
IsCall (Call.key_command_call command key) = IsKeyCommand command × IsKey key
IsCall (Call.set_key_call key) = IsKey key
IsCall (Call.set_power_save_timeout_call timeout_ms) = timeout_ms < 2 ^ 31
IsCall _ = Unit

module _ (E : Type 0) (answer : List ℕ → List (List ℕ) → Outcome E (Unit {0})) where
  -- The controller's encoders, and a device that keeps the messages and answers each.
  abbrev pub recording : CommandPort
  recording = record {
    Device = List (List ℕ);
    DeviceError = E;
    encode = encode_message;
    send_control_reliable = λ bytes log. (bytes ∷ log, answer bytes log);
  }

  -- The outcome of a command on a controller of the device and on the log.
  unfoldable pub Sends : Expected → ℕ → List (List ℕ) → Link recording × Result recording → Type 0
  Sends x wdev_id log ((c, log'), ok _) =
      ((x ≡ Expected.claim_interface) × (c.pending_command ≡ none) × (log' ≡ log))
      ⊎ ((m : Message) × (x ≡ Expected.send_message m)
          × (c.pending_command ≡ some (message_command m))
          × IsFor wdev_id m
          × Carries m log log')
  Sends x wdev_id log ((c, log'), err (StationError.protocol e)) = ⊥
  Sends x wdev_id log ((c, log'), err (StationError.device e)) =
      (m : Message) × (x ≡ Expected.send_message m) × IsFor wdev_id m × Carries m log log'
  Sends x wdev_id log ((c, log'), panic) =
      (m : Message) × (x ≡ Expected.send_message m) × IsFor wdev_id m × Carries m log log'
  Sends x wdev_id log ((c, log'), err e) = log' ≡ log

  delivered :
      (m : Message) (c : StationController)
      → IsEncodable m
      → c.wdev_id < 2 ^ 32
      → IsFor c.wdev_id m
      → (log : List (List ℕ))
      → (bytes : List ℕ) × (encode_message m ≡ ok bytes) × Carries m log (bytes ∷ log)
  delivered m c v w for_device log =
      let (bytes, body, encoded, _, _, found, size) =
        encode_message-received m [] v (device_bound m for_device) in
      (bytes, encoded, (bytes, body, encoded, refl, rw (append-nil bytes) at found, size))
    where
      device_bound : (m : Message) → IsFor c.wdev_id m → unwrap_or (message_device m) 0 < 2 ^ 32
      device_bound m (inl e) = rw e w
      device_bound m (inr e) = rw e (omega arith)

  answered :
      (x : Expected) (m : Message) (next : StationController → StationController)
      (c : StationController) (log log' : List (List ℕ)) (o : Outcome E (Unit {0}))
      → x ≡ Expected.send_message m
      → IsFor c.wdev_id m
      → (next c).pending_command ≡ some (message_command m)
      → Carries m log log'
      → Sends x c.wdev_id log (elim o as (λ _. Link recording × Result recording) [
        | ok _ ↦ ((next c, log'), ok tt)
        | err e ↦ ((c, log'), err (StationError.device e))
        | panic ↦ ((c, log'), panic)
      ])
  unfolding Sends
  answered x m next c log log' (ok _) same f pending carries = inr (m, same, pending, f, carries)
  answered x m next c log log' (err e) same f pending carries = (m, same, f, carries)
  answered x m next c log log' panic same f pending carries = (m, same, f, carries)

  pub submit-Sends :
      (x : Expected) (m : Message) (next : StationController → StationController)
      (c : StationController) (log : List (List ℕ))
      → x ≡ Expected.send_message m
      → IsEncodable m
      → c.wdev_id < 2 ^ 32
      → IsFor c.wdev_id m
      → (next c).pending_command ≡ some (message_command m)
      → Sends x c.wdev_id log (submit recording m next (c, log))
  unfolding submit
  submit-Sends x m next c log same v w f pending =
      let (bytes, encoded, carries) = delivered m c v w f log in
      rw (encoded, submit)
        (answered x m next c log (bytes ∷ log) (answer bytes log) same f pending carries)

  pub refused :
      (x : Expected) (c : StationController) (log : List (List ℕ)) (found wanted : StationState)
      → Sends x c.wdev_id log ((c, log), err (StationError.invalid_state found wanted))
  unfolding Sends
  refused x c log found wanted = refl

  pub faulted :
      (x : Expected) (wdev_id : ℕ) (c : StationController) (log : List (List ℕ)) (f : StationFault)
      → Sends x wdev_id log ((c, log), err (StationError.faulted f))
  unfolding Sends
  faulted x wdev_id c log f = refl

  pub created :
      (x : Expected) (c : StationController) (log : List (List ℕ))
      → Sends x c.wdev_id log ((c, log), err StationError.interface_already_created)
  unfolding Sends
  created x c log = refl

  pub uncreated :
      (x : Expected) (c : StationController) (log : List (List ℕ))
      → Sends x c.wdev_id log ((c, log), err StationError.interface_not_created)
  unfolding Sends
  uncreated x c log = refl

  pub claimed :
      (x : Expected) (c : StationController) (log : List (List ℕ)) (c' : StationController)
      (r : Unit {0})
      → x ≡ Expected.claim_interface
      → c'.pending_command ≡ none
      → Sends x c.wdev_id log ((c', log), ok r)
  unfolding Sends
  claimed x c log c' r same e = inl (same, e, refl)

  pub if_Sends :
      (x : Expected) (b : Bool) (wdev_id : ℕ) (log : List (List ℕ))
      (s t : Link recording × Result recording)
      → (b ≡ true → Sends x wdev_id log s)
      → (b ≡ false → Sends x wdev_id log t)
      → Sends x wdev_id log (if b then s else t)
  if_Sends x true wdev_id log s t p q = p refl
  if_Sends x false wdev_id log s t p q = q refl

  pub with_peer-Sends :
      (x : Expected) (peer : Option (List ℕ)) (rest : List ℕ → Command recording)
      (c : StationController) (log : List (List ℕ))
      → ((p : List ℕ) → peer ≡ some p → Sends x c.wdev_id log (rest p (c, log)))
      → Sends x c.wdev_id log (with_peer recording peer rest (c, log))
  unfolding with_peer
  with_peer-Sends x none rest c log f = faulted x c.wdev_id c log StationFault.peer_mismatch
  with_peer-Sends x (some p) rest c log f = f p refl
