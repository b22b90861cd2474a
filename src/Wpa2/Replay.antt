-- ===== src/Wpa2/Replay.antt =====
-- wpa2.rs: whole histories of the supplicant, and the replay counters of the keys that it installs.
use Prim.Native.Nat.{ℕ}
use embassy_zephyr_n_rf.Base.{
  not, ◌&&◌, ◌&&◌, ◌==◌, Bool-cases, inr, err, ◌⊎◌, inl, ◌≡◌, refl, List, Bool, Option, none, some,
  ok, arith,
}
use embassy_zephyr_n_rf.Wpa2.Types.{
  ccmp_key_len, EapolKeyMessage, Wpa2Error, Wpa2Action, Wpa2Supplicant,
}
use embassy_zephyr_n_rf.Wpa2.Crypto.{Crypto}
use embassy_zephyr_n_rf.Wpa2.Frame.{key_length, descriptor_version, message, EapolKeyFrame, parse}
use embassy_zephyr_n_rf.Wpa2.State.{failed_state, fail}
use embassy_zephyr_n_rf.Wpa2.Supplicant.{
  validate_frame, dispatch_message, handle_pending_frame, on_frame, on_eapol,
  is_pairwise_handshake_message,
}
use embassy_zephyr_n_rf.Wpa2.Invariant.{
  Above-refl, Inv, Good, fail-Good, err-Good, failed_state-Inv,
}
use embassy_zephyr_n_rf.Wpa2.Invariant.Messages.{
  try_then-Good, on_message1-Good, on_message3-Good, on_group_message1-Good,
}

pub validate_frame-cases :
    (frame : EapolKeyFrame) (s : Wpa2Supplicant)
    → (validate_frame frame s ≡ (s, ok (message frame)))
      ⊎ ((error : Wpa2Error) × (validate_frame frame s ≡ (failed_state s, err error)))
unfolding validate_frame fail
validate_frame-cases frame s = elim (Bool-cases (descriptor_version frame.key_info == 2)) [
  | inr e ↦ rw e (inr (_, refl))
  | inl e ↦
      elim (Bool-cases
        (is_pairwise_handshake_message (message frame) && not (key_length frame == ccmp_key_len))) [
          | inl e' ↦ rw (e, e') (inr (_, refl))
          | inr e' ↦ rw (e, e') (inl refl)
        ]
]

failed-Good : (e : Wpa2Error) (s : Wpa2Supplicant) → Inv s → Good s (failed_state s, err e)
unfolding Good failed_state
failed-Good e s v = (failed_state-Inv s v, inl refl, λ p. refl)

module _ (crypto : Crypto) where
  dispatch_message-Good :
      (frame : EapolKeyFrame) (m : EapolKeyMessage) (s : Wpa2Supplicant)
      → Inv s
      → s.pending_ticket ≡ none
      → Good s (dispatch_message crypto frame m s)
  unfolding dispatch_message
  dispatch_message-Good frame EapolKeyMessage.pairwise_message1 s v idle =
      on_message1-Good crypto frame s v
  dispatch_message-Good frame EapolKeyMessage.pairwise_message3 s v idle =
      on_message3-Good crypto frame s v
  dispatch_message-Good frame EapolKeyMessage.group_message1 s v idle =
      on_group_message1-Good crypto frame s v idle
  dispatch_message-Good frame _ s v idle = fail-Good Wpa2Error.unsupported_message s s v

  nothing-Good : (s : Wpa2Supplicant) → Inv s → Good s (s, ok Wpa2Action.nothing)
  unfolding Good
  nothing-Good s v = (v, omega arith, λ p. p)

  handle_pending_frame-Good :
      (frame : EapolKeyFrame) (m : EapolKeyMessage) (p : Option (ℕ × ℕ × Bool)) (s : Wpa2Supplicant)
      → Inv s
      → s.pending_ticket ≡ p
      → Good s (handle_pending_frame crypto frame m p s)
  unfolding handle_pending_frame
  handle_pending_frame-Good frame m none s v e = dispatch_message-Good frame m s v e
  handle_pending_frame-Good frame m (some (ticket, replay, group)) s v e = ground (
    arith,
    fail-Good Wpa2Error.conflicting_retransmission s s v,
    err-Good Wpa2Error.busy s s v (Above-refl s),
    nothing-Good s v,
  )

  on_frame-Good :
      (frame : EapolKeyFrame) (s : Wpa2Supplicant) → Inv s → Good s (on_frame crypto frame s)
  unfolding on_frame
  on_frame-Good frame s v = elim (validate_frame-cases frame s) [
    | inl e ↦ rw e (handle_pending_frame-Good frame (message frame) s.pending_ticket s v refl)
    | inr (error, e) ↦ rw e (failed-Good error s v)
  ]

  -- From a state that keeps the invariant, a received payload leads to one, and either fails the
  -- handshake or does not lower the floor; a request to install keys is above the floor and is the
  -- new floor.
  pub on_eapol-Good :
      (peer bytes : List ℕ) (s : Wpa2Supplicant) → Inv s → Good s (on_eapol crypto peer bytes s)
  unfolding on_eapol
  on_eapol-Good peer bytes s v = ground (
    arith,
    fail-Good Wpa2Error.wrong_peer s s v,
    try_then-Good (parse bytes) (on_frame crypto) s s v (Above-refl s)
        (λ frame _. on_frame-Good frame s v),
  )
