-- ===== src/Wpa2/Verified.antt =====
-- wpa2.rs: which frame a request to install keys comes from.
pub mod Installs
use Prim.Native.Nat.{ℕ}
use embassy_zephyr_n_rf.Base.{
  ◌≡◌, refl, List, true, Option, none, some, Outcome, ok, err, panic, arith,
}
use embassy_zephyr_n_rf.Wpa2.Types.{
  Wpa2Phase, EapolKeyMessage, Wpa2Error, EapolTxFrame, GroupKeyInstall, Wpa2KeyInstallRequest,
  Wpa2GroupKeyInstallRequest, Wpa2Action, Wpa2Supplicant,
}
use embassy_zephyr_n_rf.Wpa2.Crypto.{Crypto}
use embassy_zephyr_n_rf.Wpa2.Frame.{
  EapolKeyFrame, message, replay_counter, nonce, verify_mic, temporal_key,
}
use embassy_zephyr_n_rf.Wpa2.Keys.{group_key_install}
use embassy_zephyr_n_rf.Wpa2.State.{Method, fail}
use embassy_zephyr_n_rf.Wpa2.Messages.{
  try_then, with_ptk, transmitted, fail_on_error, message2_action, begin_message1,
  handle_repeated_message1, handle_message1_after_completion, after_message1, on_message1,
}

module _ (crypto : Crypto) where
  -- The frame has a valid MIC under the pairwise transient key of the state, and the key data that
  -- it carries, unwrapped with the same key, holds the group key.
  abbrev pub Authentic : EapolKeyFrame → Wpa2Supplicant → GroupKeyInstall → List ℕ → Type 0
  Authentic frame s group ptk =
      (s.ptk ≡ some ptk)
      × (verify_mic crypto frame ptk ≡ true)
      × (group_key_install crypto frame ptk ≡ ok group)

  abbrev pub PairwiseFrom : EapolKeyFrame → Wpa2Supplicant → Wpa2KeyInstallRequest → Type 0
  PairwiseFrom frame s q =
      (ptk : List ℕ) × Authentic frame s q.group ptk
      × (s.phase ≡ Wpa2Phase.awaiting_message3)
      × (nonce frame ≡ s.authenticator_nonce)
      × (q.pairwise ≡ record { peer = s.peer; key = temporal_key ptk })
      × (q.replay_counter ≡ replay_counter frame)

  abbrev pub GroupFrom : EapolKeyFrame → Wpa2Supplicant → Wpa2GroupKeyInstallRequest → Type 0
  GroupFrom frame s q =
      (ptk : List ℕ) × Authentic frame s q.group ptk
      × (s.phase ≡ Wpa2Phase.complete)
      × (q.replay_counter ≡ replay_counter frame)

  -- What a result says of the frame that it answers.
  unfoldable pub From :
      EapolKeyFrame → Wpa2Supplicant → Wpa2Supplicant × Outcome Wpa2Error Wpa2Action → Type 0
  From frame s (s', ok (Wpa2Action.install_keys q)) =
      (message frame ≡ EapolKeyMessage.pairwise_message3) × PairwiseFrom frame s q
  From frame s (s', ok (Wpa2Action.install_group_key q)) =
      (message frame ≡ EapolKeyMessage.group_message1) × GroupFrom frame s q
  From frame s (s', ok Wpa2Action.nothing) = Unit {0}
  From frame s (s', ok (Wpa2Action.transmit f)) = Unit {0}
  From frame s (s', err e) = Unit {0}
  From frame s (s', panic) = Unit {0}

  pub fail-From :
      (frame : EapolKeyFrame) (s : Wpa2Supplicant) (e : Wpa2Error) (c : Wpa2Supplicant)
      → From frame s (fail {A = Wpa2Action} e c)
  unfolding From fail
  fail-From frame s e c = tt

  pub nothing-From :
      (frame : EapolKeyFrame) (s : Wpa2Supplicant) → From frame s (s, ok Wpa2Action.nothing)
  unfolding From
  nothing-From frame s = tt

  pub err-From :
      (frame : EapolKeyFrame) (s : Wpa2Supplicant) (e : Wpa2Error) (c : Wpa2Supplicant)
      → From frame s (c, err e)
  unfolding From
  err-From frame s e c = tt

  pub try_then-From :
      {A : Type 0} (frame : EapolKeyFrame) (s : Wpa2Supplicant) (m : Outcome Wpa2Error A)
      (k : A → Method Wpa2Action) (c : Wpa2Supplicant)
      → ((a : A) → m ≡ ok a → From frame s (k a c))
      → From frame s (try_then m k c)
  unfolding From try_then
  try_then-From frame s (ok a) k c g = g a refl
  try_then-From frame s (err e) k c g = tt
  try_then-From frame s panic k c g = tt

  pub fail_on_error-From :
      {A : Type 0} (frame : EapolKeyFrame) (s : Wpa2Supplicant) (m : Outcome Wpa2Error A)
      (k : A → Method Wpa2Action) (c : Wpa2Supplicant)
      → ((a : A) → m ≡ ok a → From frame s (k a c))
      → From frame s (fail_on_error m k c)
  unfolding From fail_on_error fail
  fail_on_error-From frame s (ok a) k c g = g a refl
  fail_on_error-From frame s (err e) k c g = tt
  fail_on_error-From frame s panic k c g = tt

  pub with_ptk-From :
      (frame : EapolKeyFrame) (s : Wpa2Supplicant) (k : List ℕ → Method Wpa2Action)
      (c : Wpa2Supplicant)
      → ((ptk : List ℕ) → c.ptk ≡ some ptk → From frame s (k ptk c))
      → From frame s (with_ptk k c)
  unfolding with_ptk
  with_ptk-From frame s k c g = try_then-From frame s _ k c λ ptk e. g ptk (ground arith)

  pub transmitted-From :
      (frame : EapolKeyFrame) (s : Wpa2Supplicant) (m : Outcome Wpa2Error EapolTxFrame)
      (c : Wpa2Supplicant)
      → From frame s (transmitted m c)
  unfolding From transmitted try_then
  transmitted-From frame s (ok f) c = tt
  transmitted-From frame s (err e) c = tt
  transmitted-From frame s panic c = tt

  pub message2_action-From :
      (frame : EapolKeyFrame) (s c : Wpa2Supplicant) → From frame s (message2_action crypto frame c)
  unfolding message2_action
  message2_action-From frame s c = with_ptk-From frame s _ c λ ptk _. transmitted-From frame s _ c

  pub after_message1-From :
      (frame : EapolKeyFrame) (previous : Option ℕ) (s : Wpa2Supplicant)
      → From frame s (after_message1 crypto frame previous s)
  unfolding after_message1 begin_message1 handle_repeated_message1
  after_message1-From frame none s = message2_action-From frame s _
  after_message1-From frame (some previous) s = ground (
    arith,
    message2_action-From frame s s,
    fail-From frame s Wpa2Error.stale_replay_counter s,
    fail-From frame s Wpa2Error.conflicting_retransmission s,
    err-From frame s Wpa2Error.new_pairwise_handshake_requires_nonce s,
  )

  pub on_message1-From :
      (frame : EapolKeyFrame) (s : Wpa2Supplicant) → From frame s (on_message1 crypto frame s)
  unfolding on_message1 handle_message1_after_completion
  on_message1-From frame s = ground (
    arith,
    fail-From frame s Wpa2Error.unsupported_message s,
    fail-From frame s Wpa2Error.invalid_authenticator_nonce s,
    fail-From frame s Wpa2Error.conflicting_retransmission s,
    fail-From frame s Wpa2Error.invalid_phase s,
    err-From frame s Wpa2Error.new_pairwise_handshake_requires_nonce s,
    after_message1-From frame s.message1_replay s,
  )
