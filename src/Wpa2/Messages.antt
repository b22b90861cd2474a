-- ===== src/Wpa2/Messages.antt =====
-- wpa2.rs: the handlers of Message 1, Message 3 and the group Message 1.
use Prim.Native.Nat.{ℕ}
use embassy_zephyr_n_rf.Base.{
  is_empty, List, true, false, not, ◌&&◌, ◌||◌, ltb, leb, if◌then◌else◌, Option, none, some,
  Outcome, ok, err, panic, ◌>>=◌, ◌>>◌, reject_if, ok_or, bytes_eq,
}
use embassy_zephyr_n_rf.Wpa2.Types.{
  Wpa2Phase, Wpa2Error, EapolTxFrame, GroupKeyInstall, Wpa2Action, Wpa2Supplicant,
}
use embassy_zephyr_n_rf.Wpa2.Crypto.{Crypto}
use embassy_zephyr_n_rf.Wpa2.Frame.{
  EapolKeyFrame, encrypted_key_data, key_length, replay_counter, nonce, protocol_version, digest,
  verify_mic, temporal_key,
}
use embassy_zephyr_n_rf.Wpa2.Keys.{derive_ptk, group_key_install}
use embassy_zephyr_n_rf.Wpa2.Rsn.{is_zero_nonce}
use embassy_zephyr_n_rf.Wpa2.Response.{build_message2, build_message4, build_group_message2}
use embassy_zephyr_n_rf.Wpa2.State.{
  unwrap_or_zero, Method, phase_eq, is_bytes, is_number, fail, start_key_install,
}

unfoldable pub require_encrypted_key_data : EapolKeyFrame → Outcome Wpa2Error (Unit {0})
require_encrypted_key_data frame =
    if encrypted_key_data frame.key_info && not (is_empty frame.key_data)
    then ok tt
    else err Wpa2Error.missing_encrypted_key_data

-- `fail_on_wpa2_error!` around the rest of a method.
unfoldable pub fail_on_error : {A B : Type 0} → Outcome Wpa2Error A → (A → Method B) → Method B
fail_on_error (ok a) k s = k a s
fail_on_error (err error) k s = fail error s
fail_on_error panic k s = (s, panic)

-- `?` on the result of a call that does not change the state, before the rest of a method.
unfoldable pub try_then : {A B : Type 0} → Outcome Wpa2Error A → (A → Method B) → Method B
try_then (ok a) k s = k a s
try_then (err error) k s = (s, err error)
try_then panic k s = (s, panic)

-- `self.ptk.as_ref().ok_or(Wpa2Error::InvalidPhase)?`
unfoldable pub with_ptk : {B : Type 0} → (List ℕ → Method B) → Method B
with_ptk k s = try_then (ok_or s.ptk Wpa2Error.invalid_phase) k s

-- `Ok(Wpa2Action::Transmit(frame?))`
unfoldable pub transmitted : Outcome Wpa2Error EapolTxFrame → Method Wpa2Action
transmitted frame s = try_then frame (λ f c. (c, ok (Wpa2Action.transmit f))) s

unfoldable pub validate_new_message3 : EapolKeyFrame → Wpa2Supplicant → Outcome Wpa2Error (Unit {0})
validate_new_message3 frame s = do
  reject_if (not (phase_eq s.phase Wpa2Phase.awaiting_message3)) Wpa2Error.invalid_phase
  message1_replay ← ok_or s.message1_replay Wpa2Error.invalid_phase
  reject_if (leb (replay_counter frame) message1_replay) Wpa2Error.stale_replay_counter
  require_encrypted_key_data frame

module _ (crypto : Crypto) where
  unfoldable pub message2_action : EapolKeyFrame → Method Wpa2Action
  message2_action frame s =
      with_ptk
        (λ ptk. transmitted (
          build_message2 crypto s.peer (protocol_version frame) (key_length frame)
            (replay_counter frame) s.supplicant_nonce s.rsn_ie ptk))
        s

  unfoldable pub begin_message1 : EapolKeyFrame → Method Wpa2Action
  begin_message1 frame s = message2_action frame (record s {
    authenticator_nonce = nonce frame;
    message1_replay = some (replay_counter frame);
    message1_digest = some (digest crypto frame);
    ptk = some (derive_ptk crypto s.pmk s.peer s.local (nonce frame) s.supplicant_nonce);
    phase = Wpa2Phase.awaiting_message3;
  })

  unfoldable pub handle_repeated_message1 : EapolKeyFrame → ℕ → Method Wpa2Action
  handle_repeated_message1 frame previous s =
      if ltb (replay_counter frame) previous
      then fail Wpa2Error.stale_replay_counter s
      else if ltb previous (replay_counter frame)
      then (s, err Wpa2Error.new_pairwise_handshake_requires_nonce)
      else if not (bytes_eq s.authenticator_nonce (nonce frame))
          || not (is_bytes s.message1_digest (digest crypto frame))
      then fail Wpa2Error.conflicting_retransmission s
      else message2_action frame s

  unfoldable pub handle_message1_after_completion : EapolKeyFrame → Method Wpa2Action
  handle_message1_after_completion frame s =
      if is_number s.completed_replay (replay_counter frame)
        && bytes_eq s.authenticator_nonce (nonce frame)
      then fail Wpa2Error.conflicting_retransmission s
      else (s, err Wpa2Error.new_pairwise_handshake_requires_nonce)

  -- The end of `on_message1`, by the replay counter of an earlier Message 1.
  unfoldable pub after_message1 : EapolKeyFrame → Option ℕ → Method Wpa2Action
  after_message1 frame none = begin_message1 frame
  after_message1 frame (some previous) = handle_repeated_message1 frame previous

  unfoldable pub on_message1 : EapolKeyFrame → Method Wpa2Action
  on_message1 frame s =
      if not (is_empty frame.key_data)
      then fail Wpa2Error.unsupported_message s
      else if is_zero_nonce (nonce frame)
      then fail Wpa2Error.invalid_authenticator_nonce s
      else if phase_eq s.phase Wpa2Phase.complete
      then handle_message1_after_completion frame s
      else if not (
          phase_eq s.phase Wpa2Phase.awaiting_message1
          || phase_eq s.phase Wpa2Phase.awaiting_message3)
      then fail Wpa2Error.invalid_phase s
      else after_message1 frame s.message1_replay s

  unfoldable pub validate_message3_authenticator :
      EapolKeyFrame → List ℕ → List ℕ → Outcome Wpa2Error (Unit {0})
  validate_message3_authenticator frame ptk authenticator_nonce = do
    reject_if (not (bytes_eq (nonce frame) authenticator_nonce))
        Wpa2Error.invalid_authenticator_nonce
    reject_if (not (verify_mic crypto frame ptk)) Wpa2Error.invalid_mic

  -- The end of `handle_completed_message3`
  unfoldable pub message4_action : EapolKeyFrame → Method Wpa2Action
  message4_action frame s =
      with_ptk
        (λ ptk. transmitted (
          build_message4 crypto s.peer (protocol_version frame) (key_length frame)
            (replay_counter frame) ptk))
        s

  unfoldable pub handle_completed_message3 : EapolKeyFrame → Method Wpa2Action
  handle_completed_message3 frame s =
      if not (is_number s.completed_replay (replay_counter frame))
      then fail Wpa2Error.stale_replay_counter s
      else if not (is_bytes s.completed_message3_digest (digest crypto frame))
      then fail Wpa2Error.conflicting_retransmission s
      else message4_action frame s

  -- The transaction that the last lines of `on_message3` start.
  unfoldable pub install_pairwise :
      EapolKeyFrame → List ℕ → GroupKeyInstall → EapolTxFrame → Method Wpa2Action
  install_pairwise frame ptk group response s =
      let (s', ticket) = start_key_install (replay_counter frame) false (digest crypto frame) s in
      (
        record s' { phase = Wpa2Phase.installing_keys },
        ok (
            Wpa2Action.install_keys record {
              ticket = ticket;
              replay_counter = replay_counter frame;
              pairwise = record { peer = s.peer; key = temporal_key ptk };
              group = group;
              response = response;
            }),
      )

  -- `on_message3` behind its checks.
  unfoldable pub accept_message3 : EapolKeyFrame → List ℕ → Method Wpa2Action
  accept_message3 frame ptk s =
      try_then (group_key_install crypto frame ptk)
        (λ group.
          try_then
            (build_message4 crypto s.peer (protocol_version frame) (key_length frame)
              (replay_counter frame) ptk)
            (install_pairwise frame ptk group))
        s

  -- `on_message3` behind the check of the authenticator, before the handshake is complete.
  unfoldable pub new_message3 : EapolKeyFrame → Method Wpa2Action
  new_message3 frame s =
      fail_on_error (validate_new_message3 frame s) (λ _. with_ptk (accept_message3 frame)) s

  unfoldable pub on_message3 : EapolKeyFrame → Method Wpa2Action
  on_message3 frame s =
      with_ptk
        (λ ptk.
          fail_on_error (validate_message3_authenticator frame ptk s.authenticator_nonce) (λ _ c.
            if phase_eq c.phase Wpa2Phase.complete
            then handle_completed_message3 frame c
            else new_message3 frame c))
        s

  unfoldable pub validate_new_group_message1 :
      EapolKeyFrame → Wpa2Supplicant → Outcome Wpa2Error (Unit {0})
  validate_new_group_message1 frame s = do
    reject_if (leb (replay_counter frame) (unwrap_or_zero s.completed_replay))
        Wpa2Error.stale_replay_counter
    ptk ← ok_or s.ptk Wpa2Error.invalid_phase
    reject_if (not (verify_mic crypto frame ptk)) Wpa2Error.invalid_mic
    require_encrypted_key_data frame

  -- The end of `handle_repeated_group_message1`
  unfoldable pub group_message2_action : EapolKeyFrame → List ℕ → Method Wpa2Action
  group_message2_action frame ptk s =
      transmitted
        (build_group_message2 crypto s.peer (protocol_version frame) (key_length frame)
          (replay_counter frame) ptk)
        s

  unfoldable pub handle_repeated_group_message1 : EapolKeyFrame → Method Wpa2Action
  handle_repeated_group_message1 frame = with_ptk (λ ptk s.
      if not (verify_mic crypto frame ptk)
      then fail Wpa2Error.invalid_mic s
      else if not (is_bytes s.last_group_message1_digest (digest crypto frame))
      then fail Wpa2Error.conflicting_retransmission s
      else group_message2_action frame ptk s)

  -- The transaction that the last lines of `on_group_message1` start.
  unfoldable pub install_group : EapolKeyFrame → GroupKeyInstall → EapolTxFrame → Method Wpa2Action
  install_group frame group response s =
      let (s', ticket) = start_key_install (replay_counter frame) true (digest crypto frame) s in
      (
        s',
        ok (
            Wpa2Action.install_group_key record {
              ticket = ticket;
              replay_counter = replay_counter frame;
              group = group;
              response = response;
            }),
      )

  -- `on_group_message1` behind its checks.
  unfoldable pub accept_group_message1 : EapolKeyFrame → List ℕ → Method Wpa2Action
  accept_group_message1 frame ptk s =
      try_then (group_key_install crypto frame ptk)
        (λ group.
          try_then
            (build_group_message2 crypto s.peer (protocol_version frame) (key_length frame)
              (replay_counter frame) ptk)
            (install_group frame group))
        s

  -- `on_group_message1` for a replay counter that is not the last one.
  unfoldable pub new_group_message1 : EapolKeyFrame → Method Wpa2Action
  new_group_message1 frame s =
      fail_on_error (validate_new_group_message1 frame s)
        (λ _. with_ptk (accept_group_message1 frame)) s

  unfoldable pub on_group_message1 : EapolKeyFrame → Method Wpa2Action
  on_group_message1 frame s =
      if not (phase_eq s.phase Wpa2Phase.complete)
      then fail Wpa2Error.invalid_phase s
      else if is_number s.last_group_replay (replay_counter frame)
      then handle_repeated_group_message1 frame s
      else new_group_message1 frame s
