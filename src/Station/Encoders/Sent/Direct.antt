-- ===== src/Station/Encoders/Sent/Direct.antt =====
-- station.rs with its encoders: the commands that need no peer.
use Prim.Native.Nat.{ℕ, ◌^◌, ◌<◌, ◌≤◌}
use embassy_zephyr_n_rf.Base.{
  ◌≡◌, inl, inr, leb, refl, List, [], ◌∷◌, Bool, true, false, none, some, not, ◌==◌, Outcome, arith,
  length,
}
use embassy_zephyr_n_rf.Protocol.Types.{UmacCommand, ScanReason, ScanRequest}
use embassy_zephyr_n_rf.Protocol.Commands.Lengths.{IsScan}
use embassy_zephyr_n_rf.Control.Types.{KeyConfig, PowerSaveState, AuthenticationRequest}
use embassy_zephyr_n_rf.Control.Encode.Lengths.{IsKey}
use embassy_zephyr_n_rf.Control.Commands.Lengths.{IsAuthentication}
use embassy_zephyr_n_rf.Station.Types.{StationState, StationController}
use embassy_zephyr_n_rf.Station.Core.{transition, require_cases, require_one_of_cases}
use embassy_zephyr_n_rf.Station.Port.{Message}
use embassy_zephyr_n_rf.Station.Commands.{
  after_guard, pend, pend_return, create_interface, set_regulatory, bring_up, bring_down,
  start_scan, request_scan_results, authenticate, set_key, set_power_save, set_power_save_timeout,
}
use embassy_zephyr_n_rf.Station.Encoders.Deliver.Packets.{IsCountry}
use embassy_zephyr_n_rf.Station.Encoders.Sent.{
  Call, expected, recording, Sends, submit-Sends, if_Sends, refused, created, uncreated, claimed,
}

lt→leb_not : (a b : ℕ) → a < b → leb b a ≡ false
lt→leb_not a b h = ground arith

module _ (E : Type 0) (answer : List ℕ → List (List ℕ) → Outcome E (Unit {0})) where
  pub create_interface-Sends :
      (mac : List ℕ) (name : List ℕ) (c : StationController) (log : List (List ℕ))
      → length mac ≡ 6
      → length name ≤ 16
      → c.wdev_id < 2 ^ 32
      → Sends E answer
          (expected (Call.create_interface_call mac name) c)
          c.wdev_id
          log
          (create_interface (recording E answer) mac name (c, log))
  unfolding create_interface after_guard transition
  create_interface-Sends mac name c log h k w = elim (require_cases {D = E} StationState.down c) [
    | inl (_, e) ↦ rw e (
        if_Sends E answer _ c.interface_created c.wdev_id log _ _ (λ h1. created E answer _ c log)
          (λ h2.
            if_Sends E answer _ (c.wdev_id == 0) c.wdev_id log _ _
              (λ zero. claimed E answer _ c log _ _ (rw zero refl) refl)
              (λ other.
                submit-Sends E answer _ (Message.new_interface_message c.wdev_id mac name)
                  (pend (recording E answer) UmacCommand.new_interface
                    StationState.interface_create_pending)
                  c log (rw other refl) (h, k) w (inl refl) refl)))
    | inr e ↦ rw e (refused E answer _ c log _ _)
  ]

  pub set_regulatory-Sends :
      (country : List ℕ) (hint : ℕ) (force : Bool) (c : StationController) (log : List (List ℕ))
      → IsCountry country
      → c.wdev_id < 2 ^ 32
      → Sends E answer
          (expected (Call.set_regulatory_call country hint force) c)
          c.wdev_id
          log
          (set_regulatory (recording E answer) country hint force (c, log))
  unfolding set_regulatory after_guard transition
  set_regulatory-Sends country hint force c log v w =
      elim (require_one_of_cases {D = E} StationState.down (StationState.idle ∷ []) c) [
        | inl (_, e) ↦ rw e (
            submit-Sends E answer _ (Message.set_regulatory_message c.wdev_id country hint force)
              (pend_return (recording E answer) UmacCommand.request_set_regulatory (some c.state)
                StationState.regulatory_pending)
              c log refl v w (inr refl) refl)
        | inr e ↦ rw e (refused E answer _ c log _ _)
      ]

  pub bring_up-Sends :
      (c : StationController) (log : List (List ℕ))
      → c.wdev_id < 2 ^ 32
      → Sends E answer
          (expected Call.bring_up_call c)
          c.wdev_id
          log
          (bring_up (recording E answer) (c, log))
  unfolding bring_up after_guard transition
  bring_up-Sends c log w = elim (require_cases {D = E} StationState.down c) [
    | inl (_, e) ↦ rw e (
        if_Sends E answer _ (not c.interface_created) c.wdev_id log _ _
          (λ absent. uncreated E answer _ c log)
          (λ present.
            submit-Sends E answer _
              (Message.interface_flags_message c.wdev_id true c.firmware_index)
              (pend (recording E answer) UmacCommand.set_interface_flags
                StationState.interface_up_pending)
              c log refl tt w (inl refl) refl))
    | inr e ↦ rw e (refused E answer _ c log _ _)
  ]

  pub bring_down-Sends :
      (c : StationController) (log : List (List ℕ))
      → c.wdev_id < 2 ^ 32
      → Sends E answer
          (expected Call.bring_down_call c)
          c.wdev_id
          log
          (bring_down (recording E answer) (c, log))
  unfolding bring_down after_guard transition
  bring_down-Sends c log w =
      elim (require_one_of_cases {D = E} StationState.idle
        (StationState.connected ∷ StationState.fault ∷ []) c) [
          | inl (_, e) ↦ rw e (
              if_Sends E answer _ (not c.interface_created) c.wdev_id log _ _
                (λ absent. uncreated E answer _ c log)
                (λ present.
                  submit-Sends E answer _
                    (Message.interface_flags_message c.wdev_id false c.firmware_index)
                    (pend_return (recording E answer) UmacCommand.set_interface_flags none
                      StationState.interface_down_pending)
                    c log refl tt w (inl refl) refl))
          | inr e ↦ rw e (refused E answer _ c log _ _)
        ]

  pub start_scan-Sends :
      (request : ScanRequest) (c : StationController) (log : List (List ℕ))
      → IsScan request
      → c.wdev_id < 2 ^ 32
      → Sends E answer
          (expected (Call.start_scan_call request) c)
          c.wdev_id
          log
          (start_scan (recording E answer) request (c, log))
  unfolding start_scan after_guard transition
  start_scan-Sends request c log v w = elim (require_cases {D = E} StationState.idle c) [
    | inl (_, e) ↦ rw e (
        submit-Sends E answer _ (Message.scan_message c.wdev_id request)
          (pend (recording E answer) UmacCommand.trigger_scan StationState.scanning) c log refl v w
          (inl refl) refl)
    | inr e ↦ rw e (refused E answer _ c log _ _)
  ]

  pub request_scan_results-Sends :
      (reason : ScanReason) (c : StationController) (log : List (List ℕ))
      → c.wdev_id < 2 ^ 32
      → Sends E answer
          (expected (Call.request_scan_results_call reason) c)
          c.wdev_id
          log
          (request_scan_results (recording E answer) reason (c, log))
  unfolding request_scan_results after_guard transition
  request_scan_results-Sends reason c log w =
      elim (require_cases {D = E} StationState.scan_complete c) [
        | inl (_, e) ↦ rw e (
            submit-Sends E answer _ (Message.get_scan_results_message c.wdev_id reason)
              (pend (recording E answer) UmacCommand.get_scan_results
                StationState.reading_scan_results)
              c log refl tt w (inl refl) refl)
        | inr e ↦ rw e (refused E answer _ c log _ _)
      ]

  pub authenticate-Sends :
      (request : AuthenticationRequest) (c : StationController) (log : List (List ℕ))
      → IsAuthentication request
      → c.wdev_id < 2 ^ 32
      → Sends E answer
          (expected (Call.authenticate_call request) c)
          c.wdev_id
          log
          (authenticate (recording E answer) request (c, log))
  unfolding authenticate after_guard transition
  authenticate-Sends request c log v w = elim (require_cases {D = E} StationState.idle c) [
    | inl (_, e) ↦ rw e (
        submit-Sends E answer _ (Message.authenticate_message c.wdev_id request)
          (λ c'.
            pend (recording E answer) UmacCommand.authenticate StationState.authenticating
              (record c' { peer = some request.bssid }))
          c log refl v w (inl refl) refl)
    | inr e ↦ rw e (refused E answer _ c log _ _)
  ]

  pub set_key-Sends :
      (key : KeyConfig) (c : StationController) (log : List (List ℕ))
      → IsKey key
      → c.wdev_id < 2 ^ 32
      → Sends E answer
          (expected (Call.set_key_call key) c)
          c.wdev_id
          log
          (set_key (recording E answer) key (c, log))
  unfolding set_key after_guard transition
  set_key-Sends key c log v w = elim (require_cases {D = E} StationState.securing c) [
    | inl (_, e) ↦ rw e (
        submit-Sends E answer _ (Message.set_key_message c.wdev_id key)
          (pend (recording E answer) UmacCommand.set_key StationState.securing) c log refl v w
          (inl refl) refl)
    | inr e ↦ rw e (refused E answer _ c log _ _)
  ]

  pub set_power_save-Sends :
      (state : PowerSaveState) (c : StationController) (log : List (List ℕ))
      → c.wdev_id < 2 ^ 32
      → Sends E answer
          (expected (Call.set_power_save_call state) c)
          c.wdev_id
          log
          (set_power_save (recording E answer) state (c, log))
  unfolding set_power_save after_guard transition
  set_power_save-Sends state c log w =
      elim (require_one_of_cases {D = E} StationState.idle (StationState.connected ∷ []) c) [
        | inl (_, e) ↦ rw e (
            submit-Sends E answer _ (Message.power_save_message c.wdev_id state)
              (pend_return (recording E answer) UmacCommand.set_power_save (some c.state)
                StationState.power_save_pending)
              c log refl tt w (inl refl) refl)
        | inr e ↦ rw e (refused E answer _ c log _ _)
      ]

  pub set_power_save_timeout-Sends :
      (timeout_ms : ℕ) (c : StationController) (log : List (List ℕ))
      → timeout_ms < 2 ^ 31
      → c.wdev_id < 2 ^ 32
      → Sends E answer
          (expected (Call.set_power_save_timeout_call timeout_ms) c)
          c.wdev_id
          log
          (set_power_save_timeout (recording E answer) timeout_ms (c, log))
  unfolding set_power_save_timeout after_guard transition
  set_power_save_timeout-Sends timeout_ms c log v w =
      elim (require_one_of_cases {D = E} StationState.idle (StationState.connected ∷ []) c) [
        | inl (_, e) ↦ rw e (
            rw (lt→leb_not timeout_ms (2 ^ 31) v) (
              submit-Sends E answer _ (Message.power_save_timeout_message c.wdev_id timeout_ms)
                (pend_return (recording E answer) UmacCommand.set_power_save_timeout (some c.state)
                  StationState.power_save_pending)
                c log refl tt w (inl refl) refl))
        | inr e ↦ rw e (refused E answer _ c log _ _)
      ]
