-- ===== src/Wpa2/Verified/Installs.antt =====
-- wpa2.rs: a request to install keys comes from an authentic frame.
pub mod Requests
use Prim.Native.Nat.{ℕ}
use embassy_zephyr_n_rf.Base.{
  bytes_eq, Bool-cases, Outcome-cases, inr, inl, Bool, ◌≡◌, refl, List, true, Option, none, some,
  Outcome, ok, arith,
}
use embassy_zephyr_n_rf.Wpa2.Types.{
  Wpa2Phase, EapolKeyMessage, Wpa2Error, EapolTxFrame, GroupKeyInstall, Wpa2KeyInstallRequest,
  Wpa2GroupKeyInstallRequest, Wpa2Action, Wpa2Supplicant,
}
use embassy_zephyr_n_rf.Wpa2.Crypto.{Crypto}
use embassy_zephyr_n_rf.Wpa2.Response.{build_group_message2}
use embassy_zephyr_n_rf.Base.{sym, ◌∙◌, subst}
use embassy_zephyr_n_rf.Base.Bytes.{bytes_eq→≡}
use embassy_zephyr_n_rf.Wpa2.State.{start_key_install}
use embassy_zephyr_n_rf.Wpa2.Frame.{
  parse, EapolKeyFrame, protocol_version, key_length, message, replay_counter, nonce, verify_mic,
}
use embassy_zephyr_n_rf.Wpa2.State.{fail}
use embassy_zephyr_n_rf.Wpa2.Messages.{
  group_message2_action, validate_new_message3, validate_new_group_message1,
  validate_message3_authenticator, on_message3, on_group_message1, new_message3, new_group_message1,
  message4_action, install_pairwise, install_group, handle_repeated_group_message1,
  handle_completed_message3, accept_message3, accept_group_message1, try_then,
}
use embassy_zephyr_n_rf.Wpa2.Replay.{validate_frame-cases}
use embassy_zephyr_n_rf.Wpa2.Supplicant.{dispatch_message, handle_pending_frame, on_frame, on_eapol}
use embassy_zephyr_n_rf.Wpa2.Verified.{
  nothing-From, Authentic, PairwiseFrom, GroupFrom, From, fail-From, err-From, try_then-From,
  fail_on_error-From, with_ptk-From, transmitted-From, on_message1-From,
}
use embassy_zephyr_n_rf.Wpa2.Verified.Installs.Requests.{on_frame-From}

-- What a result says of the payload that it answers: it comes from the peer and parses to a frame,
-- of which `From` holds.
abbrev Answers :
    Crypto
    → List ℕ
    → List ℕ
    → Wpa2Supplicant
    → Wpa2Supplicant × Outcome Wpa2Error Wpa2Action
    → Type 0
Answers crypto peer bytes s r =
    (s.peer ≡ peer) × ((frame : EapolKeyFrame) × (parse bytes ≡ ok frame) × From crypto frame s r)

module _ (crypto : Crypto) (peer bytes : List ℕ) (s : Wpa2Supplicant) where
  -- The payload of a result that is neither an error nor a panic.
  on_eapol-Answers :
      (s' : Wpa2Supplicant) (action : Wpa2Action)
      → on_eapol crypto peer bytes s ≡ (s', ok action)
      → Answers crypto peer bytes s (s', ok action)
  unfolding on_eapol fail try_then
  on_eapol-Answers s' action e = elim (Bool-cases (bytes_eq peer s.peer)) [
    | inr other ↦ absurd (ground arith)
    | inl own ↦ (
      sym (bytes_eq→≡ peer s.peer own),
      elim (Outcome-cases (parse bytes)) [
        | inl (frame, p) ↦
            (frame, p, subst (From crypto frame s) (ground arith) (on_frame-From crypto frame s))
        | inr (inl (error, p)) ↦ absurd (ground arith)
        | inr (inr p) ↦ absurd (ground arith)
      ],
    )
  ]

  -- A request to install the pairwise and the group key answers a Message 3 of the peer, received
  -- while Message 3 was awaited: its nonce is the authenticator nonce of Message 1, its MIC is valid
  -- under the pairwise transient key, the group key is the one that its key data holds once
  -- unwrapped with that key, the pairwise key is the temporal key, and the replay counter is its own.
  pub install_keys_authentic :
      (s' : Wpa2Supplicant) (q : Wpa2KeyInstallRequest)
      → on_eapol crypto peer bytes s ≡ (s', ok (Wpa2Action.install_keys q))
      → (s.peer ≡ peer)
        × ((frame : EapolKeyFrame) × (parse bytes ≡ ok frame)
            × (message frame ≡ EapolKeyMessage.pairwise_message3)
            × PairwiseFrom crypto frame s q)
  unfolding From
  install_keys_authentic s' q e =
      let (own, (frame, p, (m, from))) = on_eapol-Answers s' (Wpa2Action.install_keys q) e in
      (own, (frame, p, m, from))

  -- A request to install a group key answers a group Message 1 of the peer, received in the complete
  -- phase: its MIC is valid under the pairwise transient key, the group key is the one that its key
  -- data holds once unwrapped with that key, and the replay counter is its own.
  pub install_group_key_authentic :
      (s' : Wpa2Supplicant) (q : Wpa2GroupKeyInstallRequest)
      → on_eapol crypto peer bytes s ≡ (s', ok (Wpa2Action.install_group_key q))
      → (s.peer ≡ peer)
        × ((frame : EapolKeyFrame) × (parse bytes ≡ ok frame)
            × (message frame ≡ EapolKeyMessage.group_message1)
            × GroupFrom crypto frame s q)
  unfolding From
  install_group_key_authentic s' q e =
      let (own, (frame, p, (m, from))) = on_eapol-Answers s' (Wpa2Action.install_group_key q) e in
      (own, (frame, p, m, from))
