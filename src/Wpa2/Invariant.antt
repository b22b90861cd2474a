-- ===== src/Wpa2/Invariant.antt =====
-- wpa2.rs: the invariant of the supplicant, and the replay counter below which no key is installed.
pub mod Messages
use Prim.Native.Nat.{ℕ, ◌<◌, ◌≤◌}
use embassy_zephyr_n_rf.Base.{
  ◌≡◌, Bool, true, false, ◌⊎◌, inr, Option, none, some, Outcome, ok, err, panic, is_some, arith,
}
use embassy_zephyr_n_rf.Wpa2.Types.{Wpa2Phase, Wpa2Error, Wpa2Action, Wpa2Supplicant}
use embassy_zephyr_n_rf.Wpa2.State.{fail, failed_state, clear_transient_state}

-- The phases in which the pairwise transient key is known.
abbrev pub is_keyed : Wpa2Phase → Bool
is_keyed Wpa2Phase.awaiting_message1 = false
is_keyed Wpa2Phase.awaiting_message3 = true
is_keyed Wpa2Phase.installing_keys = true
is_keyed Wpa2Phase.complete = true
is_keyed Wpa2Phase.failed = false

-- What may be pending in a phase: the pairwise transaction exactly while keys are installed, a
-- group transaction only in the complete phase.
abbrev pub may_pend : Wpa2Phase → Option (ℕ × ℕ × Bool) → Bool
may_pend Wpa2Phase.awaiting_message1 none = true
may_pend Wpa2Phase.awaiting_message3 none = true
may_pend Wpa2Phase.complete none = true
may_pend Wpa2Phase.failed none = true
may_pend Wpa2Phase.installing_keys (some (ticket, replay, false)) = true
may_pend Wpa2Phase.complete (some (ticket, replay, true)) = true
may_pend _ _ = false

abbrev pub is_complete : Wpa2Phase → Bool
is_complete Wpa2Phase.complete = true
is_complete _ = false

pub record Inv (s : Wpa2Supplicant) : Type 0 where
  pub ptk_known : is_some s.ptk ≡ is_keyed s.phase
  pub message1_known : is_some s.message1_replay ≡ is_keyed s.phase
  pub completed_known : is_some s.completed_replay ≡ is_complete s.phase
  pub digest_pending : is_some s.pending_frame_digest ≡ is_some s.pending_ticket
  pub pending_phase : may_pend s.phase s.pending_ticket ≡ true
  pub ticket_nonzero : 0 < s.next_ticket

-- The replay counter of the last transaction: the pending one, else the completed one, else that
-- of Message 1.
abbrev pub last_replay : Option (ℕ × ℕ × Bool) → Option ℕ → Option ℕ → ℕ
last_replay (some (ticket, replay, group)) completed message1 = replay
last_replay none (some replay) message1 = replay
last_replay none none (some replay) = replay
last_replay none none none = 0

abbrev pub floor : Wpa2Supplicant → ℕ
floor s = last_replay s.pending_ticket s.completed_replay s.message1_replay

-- A call either fails the handshake or does not lower the floor; a transaction that it starts is above
-- the floor, and pending afterwards.
abbrev pub Advances : Wpa2Supplicant → Wpa2Supplicant × Outcome Wpa2Error Wpa2Action → Type 0
Advances s (s', ok (Wpa2Action.install_keys q)) =
    (floor s < q.replay_counter) × (s'.pending_ticket ≡ some (q.ticket, q.replay_counter, false))
Advances s (s', ok (Wpa2Action.install_group_key q)) =
    (floor s < q.replay_counter) × (s'.pending_ticket ≡ some (q.ticket, q.replay_counter, true))
Advances s (s', ok Wpa2Action.nothing) = floor s ≤ floor s'
Advances s (s', ok (Wpa2Action.transmit f)) = floor s ≤ floor s'
Advances s (s', err e) = (s'.phase ≡ Wpa2Phase.failed) ⊎ (floor s ≤ floor s')
Advances s (s', panic) = floor s ≤ floor s'

-- The floor is not lowered, and a failed handshake stays failed.
abbrev pub Above : Wpa2Supplicant → Wpa2Supplicant → Type 0
Above s s' = (floor s ≤ floor s') × (s.phase ≡ Wpa2Phase.failed → s'.phase ≡ Wpa2Phase.failed)

pub Above-refl : (s : Wpa2Supplicant) → Above s s
Above-refl s = (omega arith, λ p. p)

unfoldable pub Good : Wpa2Supplicant → Wpa2Supplicant × Outcome Wpa2Error Wpa2Action → Type 0
Good s r = Inv r.0 × Advances s r × (s.phase ≡ Wpa2Phase.failed → r.0.phase ≡ Wpa2Phase.failed)

pub failed_state-Inv : (s : Wpa2Supplicant) → Inv s → Inv (failed_state s)
unfolding failed_state clear_transient_state
failed_state-Inv s v = ground arith

pub fail-Good :
    (e : Wpa2Error) (s0 s : Wpa2Supplicant) → Inv s → Good s0 (fail {A = Wpa2Action} e s)
unfolding Good fail failed_state clear_transient_state
fail-Good e s0 s v = ground arith

pub err-Good : (e : Wpa2Error) (s0 s : Wpa2Supplicant) → Inv s → Above s0 s → Good s0 (s, err e)
unfolding Good
err-Good e s0 s v h = (v, inr h.0, h.1)
