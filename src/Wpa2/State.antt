-- ===== src/Wpa2/State.antt =====
-- wpa2.rs: the creation, the restart and the failure of the supplicant, and its tickets.
use Prim.Native.Nat.{ℕ, ◌+◌, ◌%◌, max}
use embassy_zephyr_n_rf.Base.{
  List, Bool, true, false, not, ◌&&◌, ◌==◌, if◌then◌else◌, Option, none, some, replicate, Outcome,
  panic, ok, err, ◌>>◌, bytes_eq, is_some, u32_mod,
}
use embassy_zephyr_n_rf.Base.Actions.{Action}
use embassy_zephyr_n_rf.Wpa2.Types.{Wpa2Phase, Wpa2Error, Wpa2Supplicant}
use embassy_zephyr_n_rf.Wpa2.Rsn.{validate_supplicant_nonce, validate_rsn_ie}

abbrev pub Method : Type 0 → Type 0
Method A = Action Wpa2Supplicant Wpa2Error A

abbrev pub phase_eq : Wpa2Phase → Wpa2Phase → Bool
phase_eq Wpa2Phase.awaiting_message1 Wpa2Phase.awaiting_message1 = true
phase_eq Wpa2Phase.awaiting_message3 Wpa2Phase.awaiting_message3 = true
phase_eq Wpa2Phase.installing_keys Wpa2Phase.installing_keys = true
phase_eq Wpa2Phase.complete Wpa2Phase.complete = true
phase_eq Wpa2Phase.failed Wpa2Phase.failed = true
phase_eq _ _ = false

-- `option.unwrap_or(0)`
abbrev pub unwrap_or_zero : Option ℕ → ℕ
unwrap_or_zero none = 0
unwrap_or_zero (some n) = n

-- `option == Some(value)`
abbrev pub is_bytes : Option (List ℕ) → List ℕ → Bool
is_bytes none bs = false
is_bytes (some as') bs = bytes_eq as' bs

abbrev pub is_number : Option ℕ → ℕ → Bool
is_number none n = false
is_number (some m) n = m == n

abbrev pub bool_eq : Bool → Bool → Bool
bool_eq true b = b
bool_eq false b = not b

abbrev pub is_ticket : Option (ℕ × ℕ × Bool) → ℕ → ℕ → Bool → Bool
is_ticket none ticket replay group = false
is_ticket (some (t, r, g)) ticket replay group = t == ticket && r == replay && bool_eq g group

-- `Wpa2Supplicant::new`
unfoldable pub new : List ℕ → List ℕ → List ℕ → List ℕ → List ℕ → Outcome Wpa2Error Wpa2Supplicant
new local peer supplicant_nonce pmk rsn_ie = do
  validate_supplicant_nonce supplicant_nonce
  validate_rsn_ie rsn_ie
  ok record {
    local = local;
    peer = peer;
    phase = Wpa2Phase.awaiting_message1;
    pmk = pmk;
    ptk = none;
    supplicant_nonce = supplicant_nonce;
    authenticator_nonce = replicate 32 0;
    rsn_ie = rsn_ie;
    message1_replay = none;
    message1_digest = none;
    completed_replay = none;
    completed_message3_digest = none;
    last_group_replay = none;
    last_group_message1_digest = none;
    pending_ticket = none;
    pending_frame_digest = none;
    next_ticket = 1;
  }

unfoldable pub clear_transient_state : Wpa2Supplicant → Wpa2Supplicant
clear_transient_state s = record s {
  ptk = none;
  supplicant_nonce = replicate 32 0;
  authenticator_nonce = replicate 32 0;
  message1_replay = none;
  message1_digest = none;
  completed_replay = none;
  completed_message3_digest = none;
  last_group_replay = none;
  last_group_message1_digest = none;
  pending_ticket = none;
  pending_frame_digest = none;
}

-- The state change of `fail`.
unfoldable pub failed_state : Wpa2Supplicant → Wpa2Supplicant
failed_state s = record (clear_transient_state s) { phase = Wpa2Phase.failed }

unfoldable pub fail : {A : Type 0} → Wpa2Error → Method A
fail error s = (failed_state s, err error)

abbrev pub restart_unless_busy : List ℕ → Outcome Wpa2Error (Unit {0}) → Method (Unit {0})
restart_unless_busy supplicant_nonce (ok _) s =
    if is_some s.pending_ticket then (s, err Wpa2Error.busy) else (
      record (clear_transient_state s) {
        supplicant_nonce = supplicant_nonce;
        phase = Wpa2Phase.awaiting_message1;
      },
      ok tt,
    )
restart_unless_busy supplicant_nonce (err error) s = (s, err error)
restart_unless_busy supplicant_nonce panic s = (s, panic)

unfoldable pub restart_pairwise : List ℕ → Method (Unit {0})
restart_pairwise supplicant_nonce s =
    restart_unless_busy supplicant_nonce (validate_supplicant_nonce supplicant_nonce) s

-- The ticket, and the state that waits for its completion.
unfoldable pub start_key_install : ℕ → Bool → List ℕ → Wpa2Supplicant → Wpa2Supplicant × ℕ
start_key_install replay group digest s = (
  record s {
    next_ticket = max ((s.next_ticket + 1) % u32_mod) 1;
    pending_ticket = some (s.next_ticket, replay, group);
    pending_frame_digest = some digest;
  },
  s.next_ticket,
)
