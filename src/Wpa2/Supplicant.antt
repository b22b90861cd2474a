-- ===== src/Wpa2/Supplicant.antt =====
-- wpa2.rs: `on_eapol`, which receives every EAPOL-Key payload.
use Prim.Native.Nat.{ℕ}
use embassy_zephyr_n_rf.Base.{
  List, Bool, true, false, not, ◌&&◌, ◌==◌, if◌then◌else◌, Option, none, some, ok, err, bytes_eq,
}
use embassy_zephyr_n_rf.Base.Actions.{◌>>=◌}
use embassy_zephyr_n_rf.Wpa2.Types.{EapolKeyMessage, Wpa2Error, Wpa2Action, ccmp_key_len}
use embassy_zephyr_n_rf.Wpa2.Crypto.{Crypto}
use embassy_zephyr_n_rf.Wpa2.Frame.{
  EapolKeyFrame, parse, message, descriptor_version, key_length, replay_counter, digest,
}
use embassy_zephyr_n_rf.Wpa2.State.{Method, is_bytes, fail}
use embassy_zephyr_n_rf.Wpa2.Messages.{try_then, on_message1, on_message3, on_group_message1}

unfoldable pub is_pairwise_handshake_message : EapolKeyMessage → Bool
is_pairwise_handshake_message EapolKeyMessage.pairwise_message1 = true
is_pairwise_handshake_message EapolKeyMessage.pairwise_message3 = true
is_pairwise_handshake_message _ = false

unfoldable pub validate_frame : EapolKeyFrame → Method EapolKeyMessage
validate_frame frame s =
    if not (descriptor_version frame.key_info == 2)
    then fail (Wpa2Error.unsupported_descriptor_version (descriptor_version frame.key_info)) s
    else if is_pairwise_handshake_message (message frame) && not (key_length frame == ccmp_key_len)
    then fail (Wpa2Error.invalid_pairwise_key_length (key_length frame)) s
    else (s, ok (message frame))

-- `message == pending_message(group)`
unfoldable pub is_pending_message : Bool → EapolKeyMessage → Bool
is_pending_message true EapolKeyMessage.group_message1 = true
is_pending_message false EapolKeyMessage.pairwise_message3 = true
is_pending_message _ _ = false

module _ (crypto : Crypto) where
  unfoldable pub dispatch_message : EapolKeyFrame → EapolKeyMessage → Method Wpa2Action
  dispatch_message frame EapolKeyMessage.pairwise_message1 = on_message1 crypto frame
  dispatch_message frame EapolKeyMessage.pairwise_message3 = on_message3 crypto frame
  dispatch_message frame EapolKeyMessage.group_message1 = on_group_message1 crypto frame
  dispatch_message frame _ = fail Wpa2Error.unsupported_message

  -- `handle_pending_frame`, and the dispatch when no transaction is pending.
  unfoldable pub handle_pending_frame :
      EapolKeyFrame → EapolKeyMessage → Option (ℕ × ℕ × Bool) → Method Wpa2Action
  handle_pending_frame frame m none s = dispatch_message frame m s
  handle_pending_frame frame m (some (_, replay, group)) s =
      if not (replay_counter frame == replay)
      then (s, err Wpa2Error.busy)
      else if is_pending_message group m && is_bytes s.pending_frame_digest (digest crypto frame)
      then (s, ok Wpa2Action.nothing)
      else fail Wpa2Error.conflicting_retransmission s

  -- `on_eapol` behind the parse
  unfoldable pub on_frame : EapolKeyFrame → Method Wpa2Action
  on_frame frame = validate_frame frame >>= λ m s. handle_pending_frame frame m s.pending_ticket s

  unfoldable pub on_eapol : List ℕ → List ℕ → Method Wpa2Action
  on_eapol peer bytes s =
      if not (bytes_eq peer s.peer)
      then fail Wpa2Error.wrong_peer s
      else try_then (parse bytes) on_frame s
