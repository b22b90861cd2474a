-- ===== src/Wpa2/Completion.antt =====
-- wpa2.rs: the completion of a key installation.
use Prim.Native.Nat.{ℕ}
use embassy_zephyr_n_rf.Base.{List, Bool, true, false, if◌then◌else◌, Option, none, some, ok}
use embassy_zephyr_n_rf.Base.Actions.{◌>>=◌}
use embassy_zephyr_n_rf.Wpa2.Types.{
  Wpa2Phase, Wpa2Error, EapolTxFrame, Wpa2KeyInstallRequest, Wpa2GroupKeyInstallRequest,
}
use embassy_zephyr_n_rf.Wpa2.State.{Method, is_ticket, fail}

-- The end of `accept_key_completion`, with the digest that it took.
abbrev pub accept_taken : Bool → Option (List ℕ) → Method (List ℕ)
accept_taken installed none s = fail Wpa2Error.stale_completion s
accept_taken installed (some digest) s =
    let s' = record s { pending_frame_digest = none; pending_ticket = none } in
    if installed then (s', ok digest) else fail Wpa2Error.install_failed s'

unfoldable pub accept_key_completion : ℕ → ℕ → Bool → Bool → Method (List ℕ)
accept_key_completion ticket replay group installed s =
    if is_ticket s.pending_ticket ticket replay group
    then accept_taken installed s.pending_frame_digest s
    else fail Wpa2Error.stale_completion s

unfoldable pub complete_key_install : Wpa2KeyInstallRequest → Bool → Method EapolTxFrame
complete_key_install request installed =
    accept_key_completion request.ticket request.replay_counter false installed >>= λ digest s. (
      record s {
        completed_replay = some request.replay_counter;
        completed_message3_digest = some digest;
        phase = Wpa2Phase.complete;
      },
      ok request.response,
    )

unfoldable pub complete_group_key_install : Wpa2GroupKeyInstallRequest → Bool → Method EapolTxFrame
complete_group_key_install request installed =
    accept_key_completion request.ticket request.replay_counter true installed >>= λ digest s. (
      record s {
        completed_replay = some request.replay_counter;
        last_group_replay = some request.replay_counter;
        last_group_message1_digest = some digest;
        phase = Wpa2Phase.complete;
      },
      ok request.response,
    )
