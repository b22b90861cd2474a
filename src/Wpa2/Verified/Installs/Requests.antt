-- ===== src/Wpa2/Verified/Installs/Requests.antt =====
-- wpa2.rs: a new request to install keys follows a message with a valid code.
use Prim.Native.Nat.{ℕ}
use embassy_zephyr_n_rf.Base.{inr, inl, Bool, ◌≡◌, refl, List, true, Option, none, some, ok, arith}
use embassy_zephyr_n_rf.Wpa2.Types.{
  Wpa2Phase, EapolKeyMessage, Wpa2Error, EapolTxFrame, GroupKeyInstall, Wpa2Supplicant,
}
use embassy_zephyr_n_rf.Wpa2.Crypto.{Crypto}
use embassy_zephyr_n_rf.Wpa2.Response.{build_group_message2}
use embassy_zephyr_n_rf.Base.{sym, ◌∙◌, subst}
use embassy_zephyr_n_rf.Base.Bytes.{bytes_eq→≡}
use embassy_zephyr_n_rf.Wpa2.State.{start_key_install}
use embassy_zephyr_n_rf.Wpa2.Frame.{
  EapolKeyFrame, protocol_version, key_length, message, replay_counter, nonce, verify_mic,
}
use embassy_zephyr_n_rf.Wpa2.Messages.{
  group_message2_action, validate_new_message3, validate_new_group_message1,
  validate_message3_authenticator, on_message3, on_group_message1, new_message3, new_group_message1,
  message4_action, install_pairwise, install_group, handle_repeated_group_message1,
  handle_completed_message3, accept_message3, accept_group_message1,
}
use embassy_zephyr_n_rf.Wpa2.Replay.{validate_frame-cases}
use embassy_zephyr_n_rf.Wpa2.Supplicant.{dispatch_message, handle_pending_frame, on_frame}
use embassy_zephyr_n_rf.Wpa2.Verified.{
  nothing-From, Authentic, From, fail-From, err-From, try_then-From, fail_on_error-From,
  with_ptk-From, transmitted-From, on_message1-From,
}

validate_message3_authenticator_lem :
    (crypto : Crypto) (frame : EapolKeyFrame) (ptk anonce : List ℕ) (u : Unit {0})
    → validate_message3_authenticator crypto frame ptk anonce ≡ ok u
    → (nonce frame ≡ anonce) × (verify_mic crypto frame ptk ≡ true)
unfolding validate_message3_authenticator
validate_message3_authenticator_lem crypto frame ptk anonce u e =
    (bytes_eq→≡ _ _ (ground arith), ground arith)

some-injective : {A : Type 0} (a b : A) → Option.some a ≡ some b → a ≡ b
some-injective a b e = cc

module _ (crypto : Crypto) (frame : EapolKeyFrame) (s : Wpa2Supplicant) where
  message4_action-From : From crypto frame s (message4_action crypto frame s)
  unfolding message4_action
  message4_action-From =
      with_ptk-From crypto frame s _ s λ ptk _. transmitted-From crypto frame s _ s

  handle_completed_message3-From : From crypto frame s (handle_completed_message3 crypto frame s)
  unfolding handle_completed_message3
  handle_completed_message3-From = ground (
    arith,
    fail-From crypto frame s Wpa2Error.stale_replay_counter s,
    fail-From crypto frame s Wpa2Error.conflicting_retransmission s,
    message4_action-From,
  )

  install_pairwise-From :
      (ptk : List ℕ) (group : GroupKeyInstall) (response : EapolTxFrame)
      → message frame ≡ EapolKeyMessage.pairwise_message3
      → Authentic crypto frame s group ptk
      → s.phase ≡ Wpa2Phase.awaiting_message3
      → nonce frame ≡ s.authenticator_nonce
      → From crypto frame s (install_pairwise crypto frame ptk group response s)
  unfolding From install_pairwise start_key_install
  install_pairwise-From ptk group response m a p n = (m, (ptk, a, p, n, refl, refl))

  accept_message3-From :
      (ptk : List ℕ)
      → message frame ≡ EapolKeyMessage.pairwise_message3
      → s.ptk ≡ some ptk
      → verify_mic crypto frame ptk ≡ true
      → s.phase ≡ Wpa2Phase.awaiting_message3
      → nonce frame ≡ s.authenticator_nonce
      → From crypto frame s (accept_message3 crypto frame ptk s)
  unfolding accept_message3
  accept_message3-From ptk m k v p n = try_then-From crypto frame s _ _ s λ group e.
      try_then-From crypto frame s _ _ s
        λ response _. install_pairwise-From ptk group response m (k, v, e) p n

  validate_new_message3-phase :
      (u : Unit {0}) → validate_new_message3 frame s ≡ ok u → s.phase ≡ Wpa2Phase.awaiting_message3
  unfolding validate_new_message3
  validate_new_message3-phase u e = ground arith

  new_message3-From :
      (ptk : List ℕ)
      → message frame ≡ EapolKeyMessage.pairwise_message3
      → s.ptk ≡ some ptk
      → verify_mic crypto frame ptk ≡ true
      → nonce frame ≡ s.authenticator_nonce
      → From crypto frame s (new_message3 crypto frame s)
  unfolding new_message3
  new_message3-From ptk m k v n = fail_on_error-From crypto frame s _ _ s λ u e.
      with_ptk-From crypto frame s _ s λ ptk' k'.
        accept_message3-From ptk' m k'
          (subst (λ x. verify_mic crypto frame x ≡ true) (some-injective ptk ptk' (sym k ∙ k')) v)
          (validate_new_message3-phase u e) n

  on_message3-From :
      message frame ≡ EapolKeyMessage.pairwise_message3
      → From crypto frame s (on_message3 crypto frame s)
  unfolding on_message3
  on_message3-From m = with_ptk-From crypto frame s _ s λ ptk k.
      fail_on_error-From crypto frame s _ _ s λ u e.
        let (n, v) = validate_message3_authenticator_lem crypto frame ptk _ u e in
        ground (arith, handle_completed_message3-From, new_message3-From ptk m k v n)

  install_group-From :
      (ptk : List ℕ) (group : GroupKeyInstall) (response : EapolTxFrame)
      → message frame ≡ EapolKeyMessage.group_message1
      → Authentic crypto frame s group ptk
      → s.phase ≡ Wpa2Phase.complete
      → From crypto frame s (install_group crypto frame group response s)
  unfolding From install_group start_key_install
  install_group-From ptk group response m a p = (m, (ptk, a, p, refl))

  accept_group_message1-From :
      (ptk : List ℕ)
      → message frame ≡ EapolKeyMessage.group_message1
      → s.ptk ≡ some ptk
      → verify_mic crypto frame ptk ≡ true
      → s.phase ≡ Wpa2Phase.complete
      → From crypto frame s (accept_group_message1 crypto frame ptk s)
  unfolding accept_group_message1
  accept_group_message1-From ptk m k v p = try_then-From crypto frame s _ _ s λ group e.
      try_then-From crypto frame s _ _ s
        λ response _. install_group-From ptk group response m (k, v, e) p

  validate_new_group_message1-mic :
      (ptk : List ℕ) (u : Unit {0})
      → s.ptk ≡ some ptk
      → validate_new_group_message1 crypto frame s ≡ ok u
      → verify_mic crypto frame ptk ≡ true
  unfolding validate_new_group_message1
  validate_new_group_message1-mic ptk u k e = ground arith

  new_group_message1-From :
      message frame ≡ EapolKeyMessage.group_message1
      → s.phase ≡ Wpa2Phase.complete
      → From crypto frame s (new_group_message1 crypto frame s)
  unfolding new_group_message1
  new_group_message1-From m p = fail_on_error-From crypto frame s _ _ s λ u e.
      with_ptk-From crypto frame s _ s
        λ ptk k. accept_group_message1-From ptk m k (validate_new_group_message1-mic ptk u k e) p

  handle_repeated_group_message1-From :
      From crypto frame s (handle_repeated_group_message1 crypto frame s)
  unfolding handle_repeated_group_message1 group_message2_action
  handle_repeated_group_message1-From = with_ptk-From crypto frame s _ s λ ptk k. ground (
    arith,
    fail-From crypto frame s Wpa2Error.invalid_mic s,
    fail-From crypto frame s Wpa2Error.conflicting_retransmission s,
    transmitted-From crypto frame s
        (build_group_message2 crypto s.peer (protocol_version frame) (key_length frame)
          (replay_counter frame) ptk)
        s,
  )

  on_group_message1-From :
      message frame ≡ EapolKeyMessage.group_message1
      → From crypto frame s (on_group_message1 crypto frame s)
  unfolding on_group_message1
  on_group_message1-From m = ground (
    arith,
    fail-From crypto frame s Wpa2Error.invalid_phase s,
    handle_repeated_group_message1-From,
    new_group_message1-From m,
  )

  dispatch_message-From :
      (m : EapolKeyMessage)
      → message frame ≡ m
      → From crypto frame s (dispatch_message crypto frame m s)
  unfolding dispatch_message
  dispatch_message-From EapolKeyMessage.pairwise_message1 e = on_message1-From crypto frame s
  dispatch_message-From EapolKeyMessage.pairwise_message3 e = on_message3-From e
  dispatch_message-From EapolKeyMessage.group_message1 e = on_group_message1-From e
  dispatch_message-From _ e = fail-From crypto frame s Wpa2Error.unsupported_message s

  handle_pending_frame-From :
      (m : EapolKeyMessage) (p : Option (ℕ × ℕ × Bool))
      → message frame ≡ m
      → From crypto frame s (handle_pending_frame crypto frame m p s)
  unfolding handle_pending_frame
  handle_pending_frame-From m none e = dispatch_message-From m e
  handle_pending_frame-From m (some (ticket, replay, group)) e = ground (
    arith,
    fail-From crypto frame s Wpa2Error.conflicting_retransmission s,
    err-From crypto frame s Wpa2Error.busy s,
    nothing-From crypto frame s,
  )

  pub on_frame-From : From crypto frame s (on_frame crypto frame s)
  unfolding on_frame
  on_frame-From = elim (validate_frame-cases frame s) [
    | inl e ↦ rw e (handle_pending_frame-From (message frame) s.pending_ticket refl)
    | inr (error, e) ↦ rw e (err-From crypto frame s error _)
  ]
