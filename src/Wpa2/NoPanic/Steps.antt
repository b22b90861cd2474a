-- ===== src/Wpa2/NoPanic/Steps.antt =====
-- wpa2.rs: the steps of the state machine do not panic.
use Prim.Native.Nat.{ℕ}
use embassy_zephyr_n_rf.Base.{
  List, Option, none, some, Outcome, ok, err, panic, Returns, arith, ok_or,
}
use embassy_zephyr_n_rf.Wpa2.Types.{
  GroupKeyInstall, Wpa2Error, EapolTxFrame, Wpa2Action, Wpa2Supplicant,
}
use embassy_zephyr_n_rf.Wpa2.Crypto.{Crypto}
use embassy_zephyr_n_rf.Wpa2.Frame.{EapolKeyFrame}
use embassy_zephyr_n_rf.Wpa2.Response.{
  build_response, build_message2, build_message4, build_group_message2,
}
use embassy_zephyr_n_rf.Wpa2.State.{Method, fail, start_key_install}
use embassy_zephyr_n_rf.Wpa2.Messages.{
  try_then, with_ptk, transmitted, fail_on_error, message2_action, begin_message1,
  handle_repeated_message1, handle_message1_after_completion, after_message1, on_message1,
  validate_message3_authenticator, message4_action, handle_completed_message3, install_pairwise,
  validate_new_group_message1, group_message2_action, handle_repeated_group_message1, install_group,
  require_encrypted_key_data,
}

-- A method returns.
unfoldable pub Safe : Wpa2Supplicant × Outcome Wpa2Error Wpa2Action → Type 0
Safe r = Returns r.1

pub fail-Safe : (e : Wpa2Error) (s : Wpa2Supplicant) → Safe (fail {A = Wpa2Action} e s)
unfolding Safe fail
fail-Safe e s = tt

pub err-Safe : (e : Wpa2Error) (s : Wpa2Supplicant) → Safe (s, err e)
unfolding Safe
err-Safe e s = tt

pub ok-Safe : (a : Wpa2Action) (s : Wpa2Supplicant) → Safe (s, ok a)
unfolding Safe
ok-Safe a s = tt

pub try_then-Safe :
    {A : Type 0} (m : Outcome Wpa2Error A) (k : A → Method Wpa2Action) (s : Wpa2Supplicant)
    → Returns m
    → ((a : A) → Safe (k a s))
    → Safe (try_then m k s)
unfolding Safe try_then
try_then-Safe (ok a) k s h g = g a
try_then-Safe (err e) k s h g = tt
try_then-Safe panic k s h g = h

pub fail_on_error-Safe :
    {A : Type 0} (m : Outcome Wpa2Error A) (k : A → Method Wpa2Action) (s : Wpa2Supplicant)
    → Returns m
    → ((a : A) → Safe (k a s))
    → Safe (fail_on_error m k s)
unfolding Safe fail_on_error fail
fail_on_error-Safe (ok a) k s h g = g a
fail_on_error-Safe (err e) k s h g = tt
fail_on_error-Safe panic k s h g = h

ok_or-Returns : {A : Type 0} (o : Option A) (e : Wpa2Error) → Returns (ok_or o e)
ok_or-Returns none e = tt
ok_or-Returns (some a) e = tt

pub with_ptk-Safe :
    (k : List ℕ → Method Wpa2Action) (s : Wpa2Supplicant)
    → ((ptk : List ℕ) → Safe (k ptk s))
    → Safe (with_ptk k s)
unfolding with_ptk
with_ptk-Safe k s g = try_then-Safe _ k s (ok_or-Returns s.ptk _) g

transmitted-Safe :
    (m : Outcome Wpa2Error EapolTxFrame) (s : Wpa2Supplicant) → Returns m → Safe (transmitted m s)
unfolding transmitted
transmitted-Safe m s h = try_then-Safe m _ s h (λ f. ok-Safe _ s)

module _ (crypto : Crypto) where
  pub build_response-Returns :
      (peer : List ℕ) (version info len replay : ℕ) (n kd ptk : List ℕ)
      → Returns (build_response crypto peer version info len replay n kd ptk)
  unfolding build_response
  build_response-Returns peer version info len replay n kd ptk = ground arith

  message2_action-Safe :
      (frame : EapolKeyFrame) (s : Wpa2Supplicant) → Safe (message2_action crypto frame s)
  unfolding message2_action build_message2
  message2_action-Safe frame s =
      with_ptk-Safe _ s λ ptk. transmitted-Safe _ s (build_response-Returns s.peer _ _ _ _ _ _ ptk)

  message4_action-Safe :
      (frame : EapolKeyFrame) (s : Wpa2Supplicant) → Safe (message4_action crypto frame s)
  unfolding message4_action build_message4
  message4_action-Safe frame s =
      with_ptk-Safe _ s λ ptk. transmitted-Safe _ s (build_response-Returns s.peer _ _ _ _ _ _ ptk)

  group_message2_action-Safe :
      (frame : EapolKeyFrame) (ptk : List ℕ) (s : Wpa2Supplicant)
      → Safe (group_message2_action crypto frame ptk s)
  unfolding group_message2_action build_group_message2
  group_message2_action-Safe frame ptk s =
      transmitted-Safe _ s (build_response-Returns s.peer _ _ _ _ _ _ ptk)

  after_message1-Safe :
      (frame : EapolKeyFrame) (previous : Option ℕ) (s : Wpa2Supplicant)
      → Safe (after_message1 crypto frame previous s)
  unfolding after_message1 begin_message1 handle_repeated_message1
  after_message1-Safe frame none s = message2_action-Safe frame _
  after_message1-Safe frame (some previous) s = ground (
    arith,
    message2_action-Safe frame s,
    fail-Safe Wpa2Error.stale_replay_counter s,
    fail-Safe Wpa2Error.conflicting_retransmission s,
    err-Safe Wpa2Error.new_pairwise_handshake_requires_nonce s,
  )

  pub on_message1-Safe :
      (frame : EapolKeyFrame) (s : Wpa2Supplicant) → Safe (on_message1 crypto frame s)
  unfolding on_message1 handle_message1_after_completion
  on_message1-Safe frame s = ground (
    arith,
    fail-Safe Wpa2Error.unsupported_message s,
    fail-Safe Wpa2Error.invalid_authenticator_nonce s,
    fail-Safe Wpa2Error.conflicting_retransmission s,
    fail-Safe Wpa2Error.invalid_phase s,
    err-Safe Wpa2Error.new_pairwise_handshake_requires_nonce s,
    after_message1-Safe frame s.message1_replay s,
  )

  pub handle_completed_message3-Safe :
      (frame : EapolKeyFrame) (s : Wpa2Supplicant) → Safe (handle_completed_message3 crypto frame s)
  unfolding handle_completed_message3
  handle_completed_message3-Safe frame s = ground (
    arith,
    fail-Safe Wpa2Error.stale_replay_counter s,
    fail-Safe Wpa2Error.conflicting_retransmission s,
    message4_action-Safe frame s,
  )

  pub handle_repeated_group_message1-Safe :
      (frame : EapolKeyFrame) (s : Wpa2Supplicant)
      → Safe (handle_repeated_group_message1 crypto frame s)
  unfolding handle_repeated_group_message1
  handle_repeated_group_message1-Safe frame s = with_ptk-Safe _ s λ ptk. ground (
    arith,
    fail-Safe Wpa2Error.invalid_mic s,
    fail-Safe Wpa2Error.conflicting_retransmission s,
    group_message2_action-Safe frame ptk s,
  )

  pub install_pairwise-Safe :
      (frame : EapolKeyFrame) (ptk : List ℕ) (group : GroupKeyInstall) (response : EapolTxFrame)
      (s : Wpa2Supplicant)
      → Safe (install_pairwise crypto frame ptk group response s)
  unfolding Safe install_pairwise start_key_install
  install_pairwise-Safe frame ptk group response s = tt

  pub install_group-Safe :
      (frame : EapolKeyFrame) (group : GroupKeyInstall) (response : EapolTxFrame)
      (s : Wpa2Supplicant)
      → Safe (install_group crypto frame group response s)
  unfolding Safe install_group start_key_install
  install_group-Safe frame group response s = tt

  pub authenticator-Returns :
      (frame : EapolKeyFrame) (ptk anonce : List ℕ)
      → Returns (validate_message3_authenticator crypto frame ptk anonce)
  unfolding validate_message3_authenticator
  authenticator-Returns frame ptk anonce = ground arith

  pub validate_new_group_message1-Returns :
      (frame : EapolKeyFrame) (s : Wpa2Supplicant)
      → Returns (validate_new_group_message1 crypto frame s)
  unfolding validate_new_group_message1 require_encrypted_key_data
  validate_new_group_message1-Returns frame s = ground arith
