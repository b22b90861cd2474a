-- ===== src/Wpa2/Histories.antt =====
-- wpa2.rs: whole histories of the supplicant, and the replay counters of the keys that it installs.
use Prim.Native.Nat.{◌<◌, ℕ, ◌≤◌}
use embassy_zephyr_n_rf.Wpa2.Crypto.{Crypto}
use embassy_zephyr_n_rf.Wpa2.Supplicant.{on_eapol}
use embassy_zephyr_n_rf.Wpa2.Replay.{on_eapol-Good}
use embassy_zephyr_n_rf.Base.{
  refl, inl, subst, All, inr, panic, ◌++◌, ◌∷◌, [], err, [], false, ◌∷◌, true, Outcome, ◌≡◌, List,
  Bool, ◌⊎◌, ok, arith,
}
use embassy_zephyr_n_rf.Wpa2.Types.{
  Wpa2Action, Wpa2Error, Wpa2Phase, Wpa2KeyInstallRequest, Wpa2GroupKeyInstallRequest,
  Wpa2Supplicant,
}
use embassy_zephyr_n_rf.Wpa2.State.{
  fail, failed_state, clear_transient_state, new, restart_pairwise,
}
use embassy_zephyr_n_rf.Wpa2.Completion.{
  accept_key_completion, complete_key_install, complete_group_key_install,
}
use embassy_zephyr_n_rf.Wpa2.Invariant.{Good, Inv, floor}

-- A call other than a received payload: it starts no transaction.
abbrev Quiet : Wpa2Supplicant → Wpa2Supplicant → Type 0
Quiet s s' =
    Inv s'
    × ((s'.phase ≡ Wpa2Phase.failed) ⊎ (floor s ≤ floor s'))
    × (s.phase ≡ Wpa2Phase.failed → s'.phase ≡ Wpa2Phase.failed)

complete_key_install-Quiet :
    (q : Wpa2KeyInstallRequest) (installed : Bool) (s : Wpa2Supplicant)
    → Inv s
    → Quiet s (complete_key_install q installed s).0
unfolding complete_key_install accept_key_completion fail failed_state clear_transient_state
complete_key_install-Quiet q installed s v = ground arith

complete_group_key_install-Quiet :
    (q : Wpa2GroupKeyInstallRequest) (installed : Bool) (s : Wpa2Supplicant)
    → Inv s
    → Quiet s (complete_group_key_install q installed s).0
unfolding complete_group_key_install accept_key_completion fail failed_state clear_transient_state
complete_group_key_install-Quiet q installed s v = ground arith

pub restart_pairwise-Inv :
    (nonce : List ℕ) (s : Wpa2Supplicant) → Inv s → Inv (restart_pairwise nonce s).0
unfolding restart_pairwise clear_transient_state
restart_pairwise-Inv nonce s v = ground arith

pub new-Inv :
    (local peer nonce pmk rsn_ie : List ℕ) (s : Wpa2Supplicant)
    → new local peer nonce pmk rsn_ie ≡ ok s
    → Inv s
unfolding new
new-Inv local peer nonce pmk rsn_ie s e = ground arith

-- One call of the supplicant's public interface. A completion may carry any request.
pub data Input : Type 0 where
  eapol : List ℕ → List ℕ → Input
  key_completion : Wpa2KeyInstallRequest → Bool → Input
  group_key_completion : Wpa2GroupKeyInstallRequest → Bool → Input
  restart : List ℕ → Input

abbrev pub is_restart : Input → Bool
is_restart (restart nonce) = true
is_restart _ = false

-- The replay counters of the keys that an action asks to install.
abbrev pub requested : Outcome Wpa2Error Wpa2Action → List ℕ
requested (ok (Wpa2Action.install_keys q)) = q.replay_counter ∷ []
requested (ok (Wpa2Action.install_group_key q)) = q.replay_counter ∷ []
requested (ok Wpa2Action.nothing) = []
requested (ok (Wpa2Action.transmit f)) = []
requested (err e) = []
requested panic = []

-- Each number is above the one before it, the first above `n`.
abbrev pub Ascending : ℕ → List ℕ → Type 0
Ascending n [] = Unit {0}
Ascending n (r ∷ rs) = (n < r) × Ascending r rs

Ascending-mono : (m n : ℕ) (rs : List ℕ) → m ≤ n → Ascending n rs → Ascending m rs
Ascending-mono m n [] h a = tt
Ascending-mono m n (r ∷ rs) h a = (omega (arith, a.0), a.1)

module _ (crypto : Crypto) where
  unfoldable pub step : Input → Wpa2Supplicant → Wpa2Supplicant
  step (eapol peer bytes) s = (on_eapol crypto peer bytes s).0
  step (key_completion q installed) s = (complete_key_install q installed s).0
  step (group_key_completion q installed) s = (complete_group_key_install q installed s).0
  step (restart nonce) s = (restart_pairwise nonce s).0

  -- The state after a history.
  unfoldable pub history : List Input → Wpa2Supplicant → Wpa2Supplicant
  history [] s = s
  history (i ∷ is) s = history is (step i s)

  unfoldable pub installs_of : Input → Wpa2Supplicant → List ℕ
  installs_of (eapol peer bytes) s = requested (on_eapol crypto peer bytes s).1
  installs_of _ s = []

  -- The replay counters of the keys that a history asks to install, in their order.
  unfoldable pub installs : List Input → Wpa2Supplicant → List ℕ
  installs [] s = []
  installs (i ∷ is) s = installs_of i s ++ installs is (step i s)

  -- What one call does to the floor, with the replay counters that it requests.
  abbrev Steps : Wpa2Supplicant → Wpa2Supplicant → List ℕ → Type 0
  Steps s s' [] = (s'.phase ≡ Wpa2Phase.failed) ⊎ (floor s ≤ floor s')
  Steps s s' (r ∷ rs) = (rs ≡ []) × (floor s < r) × (floor s' ≡ r) × ¬ (s'.phase ≡ Wpa2Phase.failed)

  requested-Steps :
      (s s' : Wpa2Supplicant) (r : Outcome Wpa2Error Wpa2Action)
      → Good s (s', r)
      → Inv s'
        × Steps s s' (requested r)
        × (s.phase ≡ Wpa2Phase.failed → s'.phase ≡ Wpa2Phase.failed)
  unfolding Good
  requested-Steps s s' (ok (Wpa2Action.install_keys q)) g = ground arith
  requested-Steps s s' (ok (Wpa2Action.install_group_key q)) g = ground arith
  requested-Steps s s' (ok Wpa2Action.nothing) g = (g.0, inr g.1, g.2)
  requested-Steps s s' (ok (Wpa2Action.transmit f)) g = (g.0, inr g.1, g.2)
  requested-Steps s s' (err e) g = g
  requested-Steps s s' panic g = (g.0, inr g.1, g.2)

  step-Steps :
      (i : Input) (s : Wpa2Supplicant)
      → Inv s
      → is_restart i ≡ false
      → Inv (step i s)
        × Steps s (step i s) (installs_of i s)
        × (s.phase ≡ Wpa2Phase.failed → (step i s).phase ≡ Wpa2Phase.failed)
  unfolding step installs_of
  step-Steps (eapol peer bytes) s v h = requested-Steps s _ _ (on_eapol-Good crypto peer bytes s v)
  step-Steps (key_completion q installed) s v h = complete_key_install-Quiet q installed s v
  step-Steps (group_key_completion q installed) s v h =
      complete_group_key_install-Quiet q installed s v
  step-Steps (restart nonce) s v h = absurd cc

  failed-Steps :
      (s s' : Wpa2Supplicant) (rs : List ℕ) → Steps s s' rs → s'.phase ≡ Wpa2Phase.failed → rs ≡ []
  failed-Steps s s' [] m f = refl
  failed-Steps s s' (r ∷ rs) m f = absurd (m.3 f)

  Ascending-append :
      (s s' : Wpa2Supplicant) (rs rest : List ℕ)
      → Steps s s' rs
      → Ascending (floor s') rest
      → (s'.phase ≡ Wpa2Phase.failed → rest ≡ [])
      → Ascending (floor s) (rs ++ rest)
  Ascending-append s s' [] rest (inl failed) a none_left = rw (none_left failed) tt
  Ascending-append s s' [] rest (inr h) a none_left = Ascending-mono _ _ rest h a
  Ascending-append s s' (r ∷ rs) rest (e, above, top, _) a none_left =
      rw e (above, subst (λ n. Ascending n rest) top a)

  step-Inv : (i : Input) (s : Wpa2Supplicant) → Inv s → Inv (step i s)
  unfolding step
  step-Inv (restart nonce) s v = restart_pairwise-Inv nonce s v
  step-Inv (eapol peer bytes) s v = (step-Steps (eapol peer bytes) s v refl).0
  step-Inv (key_completion q installed) s v = (step-Steps (key_completion q installed) s v refl).0
  step-Inv (group_key_completion q installed) s v =
      (step-Steps (group_key_completion q installed) s v refl).0

  -- Every history keeps the invariant: the pairwise transient key and the replay counter of Message 1
  -- are known exactly between Message 1 and a failure, a completed replay counter exactly in the
  -- complete phase; a digest is kept exactly while a transaction is pending, a pairwise one exactly
  -- while keys are installed and a group one only in the complete phase; the next ticket is not zero.
  pub history-Inv : (is : List Input) (s : Wpa2Supplicant) → Inv s → Inv (history is s)
  unfolding history
  history-Inv [] s v = v
  history-Inv (i ∷ is) s v = history-Inv is (step i s) (step-Inv i s v)

  failed_installs :
      (is : List Input) (s : Wpa2Supplicant)
      → Inv s
      → All (λ i. is_restart i ≡ false) is
      → s.phase ≡ Wpa2Phase.failed
      → installs is s ≡ []
  unfolding installs
  failed_installs [] s v h f = refl
  failed_installs (i ∷ is) s v h f =
      let (v', moves, stays) = step-Steps i s v h.0 in
      rw (failed-Steps s (step i s) (installs_of i s) moves (stays f))
        (failed_installs is (step i s) v' h.1 (stays f))

  -- In a history without a restart, each key that the supplicant asks to install has a replay
  -- counter above that of the one before it, and above the floor of the state: no message, repeated
  -- or replayed, installs a key a second time.
  pub installs-Ascending :
      (is : List Input) (s : Wpa2Supplicant)
      → Inv s
      → All (λ i. is_restart i ≡ false) is
      → Ascending (floor s) (installs is s)
  unfolding installs
  installs-Ascending [] s v h = tt
  installs-Ascending (i ∷ is) s v h =
      let (v', moves, stays) = step-Steps i s v h.0 in
      Ascending-append s (step i s) (installs_of i s) (installs is (step i s)) moves
        (installs-Ascending is (step i s) v' h.1) (failed_installs is (step i s) v' h.1)
