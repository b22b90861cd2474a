-- ===== src/Wpa2/Invariant/Messages.antt =====
-- wpa2.rs: every handler keeps the invariant, and installs keys only above the floor.
use Prim.Native.Nat.{ℕ, ◌<◌}
use embassy_zephyr_n_rf.Base.{
  some, Option, false, not, ◌||◌, ◌≡◌, refl, List, none, Outcome, ok, err, panic, arith,
}
use embassy_zephyr_n_rf.Wpa2.Types.{
  Wpa2Phase, Wpa2Error, EapolTxFrame, GroupKeyInstall, Wpa2Action, Wpa2Supplicant,
}
use embassy_zephyr_n_rf.Wpa2.Crypto.{Crypto}
use embassy_zephyr_n_rf.Wpa2.Frame.{EapolKeyFrame, replay_counter}
use embassy_zephyr_n_rf.Wpa2.State.{phase_eq, Method, start_key_install}
use embassy_zephyr_n_rf.Wpa2.Messages.{
  new_message3, group_message2_action, message4_action, new_group_message1,
  handle_message1_after_completion, validate_new_message3, validate_new_group_message1, on_message3,
  on_message1, on_group_message1, handle_repeated_group_message1, handle_completed_message3,
  after_message1, accept_message3, accept_group_message1, try_then, with_ptk, transmitted,
  fail_on_error, message2_action, begin_message1, handle_repeated_message1, install_pairwise,
  install_group,
}
use embassy_zephyr_n_rf.Wpa2.Invariant.{Inv, Above, Above-refl, floor, Good, fail-Good, err-Good}

-- What every step keeps passes through `?`.
pub try_then-Good :
    {A : Type 0} (m : Outcome Wpa2Error A) (k : A → Method Wpa2Action) (s0 s : Wpa2Supplicant)
    → Inv s
    → Above s0 s
    → ((a : A) → m ≡ ok a → Good s0 (k a s))
    → Good s0 (try_then m k s)
unfolding Good try_then
try_then-Good (ok a) k s0 s v h g = g a refl
try_then-Good (err e) k s0 s v h g = err-Good e s0 s v h
try_then-Good panic k s0 s v h g = (v, h.0, h.1)

pub fail_on_error-Good :
    {A : Type 0} (m : Outcome Wpa2Error A) (k : A → Method Wpa2Action) (s0 s : Wpa2Supplicant)
    → Inv s
    → Above s0 s
    → ((a : A) → m ≡ ok a → Good s0 (k a s))
    → Good s0 (fail_on_error m k s)
unfolding Good fail_on_error
fail_on_error-Good (ok a) k s0 s v h g = g a refl
fail_on_error-Good (err e) k s0 s v h g = fail-Good e s0 s v
fail_on_error-Good panic k s0 s v h g = (v, h.0, h.1)

pub transmitted-Good :
    (m : Outcome Wpa2Error EapolTxFrame) (s0 s : Wpa2Supplicant)
    → Inv s
    → Above s0 s
    → Good s0 (transmitted m s)
unfolding Good transmitted
transmitted-Good m s0 s v h =
    try_then-Good m (λ f c. (c, ok (Wpa2Action.transmit f))) s0 s v h (λ f e. (v, h.0, h.1))

pub with_ptk-Good :
    (k : List ℕ → Method Wpa2Action) (s0 s : Wpa2Supplicant)
    → Inv s
    → Above s0 s
    → ((ptk : List ℕ) → Good s0 (k ptk s))
    → Good s0 (with_ptk k s)
unfolding with_ptk
with_ptk-Good k s0 s v h g = try_then-Good _ k s0 s v h (λ ptk e. g ptk)

-- The phases in which Message 1 is taken.
abbrev IsWaiting : Wpa2Phase → Type 0
IsWaiting p =
    not (phase_eq p Wpa2Phase.awaiting_message1 || phase_eq p Wpa2Phase.awaiting_message3) ≡ false

module _ (crypto : Crypto) where
  message2_action-Good :
      (frame : EapolKeyFrame) (s0 s : Wpa2Supplicant)
      → Inv s
      → Above s0 s
      → Good s0 (message2_action crypto frame s)
  unfolding message2_action
  message2_action-Good frame s0 s v h =
      with_ptk-Good _ s0 s v h (λ ptk. transmitted-Good _ s0 s v h)

  begin_message1-Good :
      (frame : EapolKeyFrame) (s : Wpa2Supplicant)
      → Inv s
      → s.message1_replay ≡ none
      → IsWaiting s.phase
      → Good s (begin_message1 crypto frame s)
  unfolding begin_message1
  begin_message1-Good frame s v fresh start =
      message2_action-Good frame s _ (ground arith) (ground arith)

  handle_repeated_message1-Good :
      (frame : EapolKeyFrame) (previous : ℕ) (s : Wpa2Supplicant)
      → Inv s
      → Good s (handle_repeated_message1 crypto frame previous s)
  unfolding handle_repeated_message1
  handle_repeated_message1-Good frame previous s v = ground (
    arith,
    message2_action-Good frame s s v (Above-refl s),
    fail-Good Wpa2Error.stale_replay_counter s s v,
    fail-Good Wpa2Error.conflicting_retransmission s s v,
    err-Good Wpa2Error.new_pairwise_handshake_requires_nonce s s v (Above-refl s),
  )

  after_message1-Good :
      (frame : EapolKeyFrame) (previous : Option ℕ) (s : Wpa2Supplicant)
      → Inv s
      → s.message1_replay ≡ previous
      → IsWaiting s.phase
      → Good s (after_message1 crypto frame previous s)
  unfolding after_message1
  after_message1-Good frame none s v e waits = begin_message1-Good frame s v e waits
  after_message1-Good frame (some previous) s v e waits =
      handle_repeated_message1-Good frame previous s v

  pub on_message1-Good :
      (frame : EapolKeyFrame) (s : Wpa2Supplicant) → Inv s → Good s (on_message1 crypto frame s)
  unfolding on_message1 handle_message1_after_completion
  on_message1-Good frame s v = ground (
    arith,
    fail-Good Wpa2Error.unsupported_message s s v,
    fail-Good Wpa2Error.invalid_authenticator_nonce s s v,
    fail-Good Wpa2Error.conflicting_retransmission s s v,
    fail-Good Wpa2Error.invalid_phase s s v,
    err-Good Wpa2Error.new_pairwise_handshake_requires_nonce s s v (Above-refl s),
    after_message1-Good frame s.message1_replay s v refl,
  )

  message4_action-Good :
      (frame : EapolKeyFrame) (s : Wpa2Supplicant) → Inv s → Good s (message4_action crypto frame s)
  unfolding message4_action
  message4_action-Good frame s v =
      with_ptk-Good _ s s v (Above-refl s) λ ptk. transmitted-Good _ s s v (Above-refl s)

  handle_completed_message3-Good :
      (frame : EapolKeyFrame) (s : Wpa2Supplicant)
      → Inv s
      → Good s (handle_completed_message3 crypto frame s)
  unfolding handle_completed_message3
  handle_completed_message3-Good frame s v = ground (
    arith,
    fail-Good Wpa2Error.stale_replay_counter s s v,
    fail-Good Wpa2Error.conflicting_retransmission s s v,
    message4_action-Good frame s v,
  )

  install_pairwise-Good :
      (frame : EapolKeyFrame) (ptk : List ℕ) (group : GroupKeyInstall) (response : EapolTxFrame)
      (s : Wpa2Supplicant)
      → Inv s
      → s.phase ≡ Wpa2Phase.awaiting_message3
      → floor s < replay_counter frame
      → Good s (install_pairwise crypto frame ptk group response s)
  unfolding Good install_pairwise start_key_install
  install_pairwise-Good frame ptk group response s v p h = ground arith

  install_group-Good :
      (frame : EapolKeyFrame) (group : GroupKeyInstall) (response : EapolTxFrame)
      (s : Wpa2Supplicant)
      → Inv s
      → s.phase ≡ Wpa2Phase.complete
      → floor s < replay_counter frame
      → Good s (install_group crypto frame group response s)
  unfolding Good install_group start_key_install
  install_group-Good frame group response s v p h = ground arith

  accept_message3-Good :
      (frame : EapolKeyFrame) (ptk : List ℕ) (s : Wpa2Supplicant)
      → Inv s
      → s.phase ≡ Wpa2Phase.awaiting_message3
      → floor s < replay_counter frame
      → Good s (accept_message3 crypto frame ptk s)
  unfolding accept_message3
  accept_message3-Good frame ptk s v p h = try_then-Good _ _ s s v (Above-refl s) λ group _.
      try_then-Good _ _ s s v (Above-refl s)
        λ response _. install_pairwise-Good frame ptk group response s v p h

  validate_new_message3_lem :
      (frame : EapolKeyFrame) (s : Wpa2Supplicant) (u : Unit {0})
      → Inv s
      → validate_new_message3 frame s ≡ ok u
      → (s.phase ≡ Wpa2Phase.awaiting_message3) × (floor s < replay_counter frame)
  unfolding validate_new_message3
  validate_new_message3_lem frame s u v e = ground arith

  new_message3-Good :
      (frame : EapolKeyFrame) (s : Wpa2Supplicant) → Inv s → Good s (new_message3 crypto frame s)
  unfolding new_message3
  new_message3-Good frame s v = fail_on_error-Good _ _ s s v (Above-refl s) λ u e.
      let (p, h) = validate_new_message3_lem frame s u v e in
      with_ptk-Good _ s s v (Above-refl s) λ ptk. accept_message3-Good frame ptk s v p h

  pub on_message3-Good :
      (frame : EapolKeyFrame) (s : Wpa2Supplicant) → Inv s → Good s (on_message3 crypto frame s)
  unfolding on_message3
  on_message3-Good frame s v = with_ptk-Good _ s s v (Above-refl s) λ ptk.
      fail_on_error-Good _ _ s s v (Above-refl s)
        λ _ _. ground (arith, handle_completed_message3-Good frame s v, new_message3-Good frame s v)

  group_message2_action-Good :
      (frame : EapolKeyFrame) (ptk : List ℕ) (s : Wpa2Supplicant)
      → Inv s
      → Good s (group_message2_action crypto frame ptk s)
  unfolding group_message2_action
  group_message2_action-Good frame ptk s v = transmitted-Good _ s s v (Above-refl s)

  handle_repeated_group_message1-Good :
      (frame : EapolKeyFrame) (s : Wpa2Supplicant)
      → Inv s
      → Good s (handle_repeated_group_message1 crypto frame s)
  unfolding handle_repeated_group_message1
  handle_repeated_group_message1-Good frame s v = with_ptk-Good _ s s v (Above-refl s) λ ptk.
      ground (
        arith,
        fail-Good Wpa2Error.invalid_mic s s v,
        fail-Good Wpa2Error.conflicting_retransmission s s v,
        group_message2_action-Good frame ptk s v,
      )

  accept_group_message1-Good :
      (frame : EapolKeyFrame) (ptk : List ℕ) (s : Wpa2Supplicant)
      → Inv s
      → s.phase ≡ Wpa2Phase.complete
      → floor s < replay_counter frame
      → Good s (accept_group_message1 crypto frame ptk s)
  unfolding accept_group_message1
  accept_group_message1-Good frame ptk s v p h = try_then-Good _ _ s s v (Above-refl s) λ group _.
      try_then-Good _ _ s s v (Above-refl s)
        λ response _. install_group-Good frame group response s v p h

  validate_new_group_message1_lem :
      (frame : EapolKeyFrame) (s : Wpa2Supplicant) (u : Unit {0})
      → Inv s
      → s.phase ≡ Wpa2Phase.complete
      → s.pending_ticket ≡ none
      → validate_new_group_message1 crypto frame s ≡ ok u
      → floor s < replay_counter frame
  unfolding validate_new_group_message1
  validate_new_group_message1_lem frame s u v p idle e = ground arith

  new_group_message1-Good :
      (frame : EapolKeyFrame) (s : Wpa2Supplicant)
      → Inv s
      → s.pending_ticket ≡ none
      → s.phase ≡ Wpa2Phase.complete
      → Good s (new_group_message1 crypto frame s)
  unfolding new_group_message1
  new_group_message1-Good frame s v idle p = fail_on_error-Good _ _ s s v (Above-refl s) λ u e.
      with_ptk-Good _ s s v (Above-refl s) λ ptk.
        accept_group_message1-Good frame ptk s v p
          (validate_new_group_message1_lem frame s u v p idle e)

  pub on_group_message1-Good :
      (frame : EapolKeyFrame) (s : Wpa2Supplicant)
      → Inv s
      → s.pending_ticket ≡ none
      → Good s (on_group_message1 crypto frame s)
  unfolding on_group_message1
  on_group_message1-Good frame s v idle = ground (
    arith,
    fail-Good Wpa2Error.invalid_phase s s v,
    handle_repeated_group_message1-Good frame s v,
    new_group_message1-Good frame s v idle,
  )
