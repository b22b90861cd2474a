-- ===== src/Wpa2/NoPanic.antt =====
-- wpa2.rs: no payload makes the supplicant panic.
pub mod Steps
use Prim.Native.Nat.{◌+◌, ◌≤◌, ℕ}
use embassy_zephyr_n_rf.Base.{
  length, ◌≡◌, List, Option, none, some, inl, inr, Bool, Outcome, ok, err, panic, Returns, arith,
  ok_or,
}
use embassy_zephyr_n_rf.Base.Post.{Post-bind, Post-Returns}
use embassy_zephyr_n_rf.Wpa2.Types.{
  GroupKeyInstall, max_key_data_len, Wpa2Error, EapolKeyMessage, EapolTxFrame, Wpa2Action,
  Wpa2Supplicant,
}
use embassy_zephyr_n_rf.Wpa2.Crypto.{Crypto, IsSized}
use embassy_zephyr_n_rf.Wpa2.Frame.{EapolKeyFrame, parse, message, kek}
use embassy_zephyr_n_rf.Wpa2.Frame.Parse.{parse-IsFrame, Accepted}
use embassy_zephyr_n_rf.Wpa2.Keys.{group_key_install}
use embassy_zephyr_n_rf.Wpa2.Keys.Gtk.{parse_gtk_kde-IsGtk, IsGtk}
use embassy_zephyr_n_rf.Wpa2.Keys.Unwrap.NoPanic.{aes_key_unwrap-Fits}
use embassy_zephyr_n_rf.Wpa2.Response.{
  build_response, build_message2, build_message4, build_group_message2,
}
use embassy_zephyr_n_rf.Wpa2.State.{Method, fail, start_key_install}
use embassy_zephyr_n_rf.Wpa2.Messages.{
  try_then, with_ptk, transmitted, fail_on_error, message2_action, begin_message1,
  handle_repeated_message1, handle_message1_after_completion, after_message1, on_message1,
  validate_message3_authenticator, message4_action, handle_completed_message3,
  validate_new_message3, install_pairwise, accept_message3, new_message3, on_message3,
  validate_new_group_message1, group_message2_action, handle_repeated_group_message1, install_group,
  accept_group_message1, new_group_message1, on_group_message1, require_encrypted_key_data,
}
use embassy_zephyr_n_rf.Wpa2.Supplicant.{dispatch_message, handle_pending_frame, on_frame, on_eapol}
use embassy_zephyr_n_rf.Wpa2.Replay.{validate_frame-cases}
use embassy_zephyr_n_rf.Wpa2.NoPanic.Steps.{
  Safe, fail-Safe, err-Safe, ok-Safe, try_then-Safe, fail_on_error-Safe, with_ptk-Safe,
  build_response-Returns, on_message1-Safe, handle_completed_message3-Safe,
  handle_repeated_group_message1-Safe, install_pairwise-Safe, install_group-Safe,
  authenticator-Returns, validate_new_group_message1-Returns,
}

validate_new_message3-Returns :
    (frame : EapolKeyFrame) (s : Wpa2Supplicant) → Returns (validate_new_message3 frame s)
unfolding validate_new_message3 require_encrypted_key_data
validate_new_message3-Returns frame s = ground arith

module _ (crypto : Crypto) (sized : IsSized crypto) where
  group_key_install-Returns :
      (frame : EapolKeyFrame) (ptk : List ℕ) → Returns (group_key_install crypto frame ptk)
  unfolding group_key_install
  group_key_install-Returns frame ptk =
      Post-Returns (λ _. Unit {0}) _
        (Post-bind
          (λ plain. (length frame.key_data ≡ length plain + 8) × (length plain ≤ max_key_data_len))
          (λ _. Unit {0}) _ _
          (aes_key_unwrap-Fits crypto sized (kek ptk) frame.key_data max_key_data_len)
          λ plain _. Post-bind IsGtk (λ _. Unit {0}) _ _ (parse_gtk_kde-IsGtk plain) λ gtk _. tt)

  new_message3-Safe :
      (frame : EapolKeyFrame) (s : Wpa2Supplicant) → Safe (new_message3 crypto frame s)
  unfolding new_message3 accept_message3 build_message4
  new_message3-Safe frame s = fail_on_error-Safe _ _ s (validate_new_message3-Returns frame s) λ _.
      with_ptk-Safe _ s λ ptk. try_then-Safe _ _ s (group_key_install-Returns frame ptk) λ group.
        try_then-Safe _ _ s (build_response-Returns crypto s.peer _ _ _ _ _ _ ptk)
          λ response. install_pairwise-Safe crypto frame ptk group response s

  on_message3-Safe :
      (frame : EapolKeyFrame) (s : Wpa2Supplicant) → Safe (on_message3 crypto frame s)
  unfolding on_message3
  on_message3-Safe frame s = with_ptk-Safe _ s λ ptk.
      fail_on_error-Safe _ _ s (authenticator-Returns crypto frame ptk _) λ _.
        ground (arith, new_message3-Safe frame s, handle_completed_message3-Safe crypto frame s)

  new_group_message1-Safe :
      (frame : EapolKeyFrame) (s : Wpa2Supplicant) → Safe (new_group_message1 crypto frame s)
  unfolding new_group_message1 accept_group_message1 build_group_message2
  new_group_message1-Safe frame s =
      fail_on_error-Safe _ _ s (validate_new_group_message1-Returns crypto frame s) λ _.
        with_ptk-Safe _ s λ ptk. try_then-Safe _ _ s (group_key_install-Returns frame ptk) λ group.
          try_then-Safe _ _ s (build_response-Returns crypto s.peer _ _ _ _ _ _ ptk)
            λ response. install_group-Safe crypto frame group response s

  on_group_message1-Safe :
      (frame : EapolKeyFrame) (s : Wpa2Supplicant) → Safe (on_group_message1 crypto frame s)
  unfolding on_group_message1
  on_group_message1-Safe frame s = ground (
    arith,
    fail-Safe Wpa2Error.invalid_phase s,
    new_group_message1-Safe frame s,
    handle_repeated_group_message1-Safe crypto frame s,
  )

  dispatch_message-Safe :
      (frame : EapolKeyFrame) (m : EapolKeyMessage) (s : Wpa2Supplicant)
      → Safe (dispatch_message crypto frame m s)
  unfolding dispatch_message
  dispatch_message-Safe frame EapolKeyMessage.pairwise_message1 s = on_message1-Safe crypto frame s
  dispatch_message-Safe frame EapolKeyMessage.pairwise_message3 s = on_message3-Safe frame s
  dispatch_message-Safe frame EapolKeyMessage.group_message1 s = on_group_message1-Safe frame s
  dispatch_message-Safe frame _ s = fail-Safe Wpa2Error.unsupported_message s

  handle_pending_frame-Safe :
      (frame : EapolKeyFrame) (m : EapolKeyMessage) (p : Option (ℕ × ℕ × Bool)) (s : Wpa2Supplicant)
      → Safe (handle_pending_frame crypto frame m p s)
  unfolding handle_pending_frame
  handle_pending_frame-Safe frame m none s = dispatch_message-Safe frame m s
  handle_pending_frame-Safe frame m (some (ticket, replay, group)) s = ground (
    arith,
    fail-Safe Wpa2Error.conflicting_retransmission s,
    err-Safe Wpa2Error.busy s,
    ok-Safe Wpa2Action.nothing s,
  )

  on_frame-Safe : (frame : EapolKeyFrame) (s : Wpa2Supplicant) → Safe (on_frame crypto frame s)
  unfolding on_frame
  on_frame-Safe frame s = elim (validate_frame-cases frame s) [
    | inl e ↦ rw e (handle_pending_frame-Safe frame (message frame) s.pending_ticket s)
    | inr (error, e) ↦ rw e (err-Safe error _)
  ]

  -- Where HMAC-SHA1 has 20 bytes and a decrypted block has 16: no payload from any address makes the
  -- supplicant panic, in any state.
  pub on_eapol-Returns :
      (peer bytes : List ℕ) (s : Wpa2Supplicant) → Returns (on_eapol crypto peer bytes s).1
  unfolding Safe on_eapol
  on_eapol-Returns peer bytes s = ground (
    arith,
    fail-Safe Wpa2Error.wrong_peer s,
    try_then-Safe (parse bytes) (on_frame crypto) s
        (Post-Returns (Accepted bytes) (parse bytes) (parse-IsFrame bytes))
        (λ frame. on_frame-Safe frame s),
  )
